-- ===== src/SipAdapter/Drained.antt =====
-- The timers of a transaction manager, cancelled before it is shut down.
use as_platform.Base.{◌≡◌, refl, [], ◌∷◌, Option, none, some, length}
use mathlib.Core.List.{append-eq-nil_iff}
use as_platform.Base.Dict.{Dict}
use as_platform.SipAdapter.{
  Transaction, TransactionManager, transaction_timer_names, cancel_table, cancel_tables,
  cancel_transaction_timers,
}
use as_platform.SipAdapter.Timers.{
  live_table, live_tables, live_manager, cancel_timers-live, cancel_timers-none, cancel_timers-idle,
  names-Distinct,
}

cancel_table-live : (table : Dict Transaction) → (cancel_table table).0 ≡ live_table table
unfolding cancel_table
cancel_table-live [] = refl
cancel_table-live ((key, t) ∷ table) =
    rw (cancel_timers-live transaction_timer_names t names-Distinct, cancel_table-live table) refl

cancel_table-none : (table : Dict Transaction) → live_table (cancel_table table).1 ≡ []
unfolding cancel_table
cancel_table-none [] = refl
cancel_table-none ((key, t) ∷ table) =
    rw (cancel_timers-none transaction_timer_names t names-Distinct, cancel_table-none table) refl

cancel_table-idle :
    (table : Dict Transaction) → live_table table ≡ [] → cancel_table table ≡ ([], table)
unfolding cancel_table
cancel_table-idle [] h = refl
cancel_table-idle ((key, t) ∷ table) h =
    let none_live = append-eq-nil_iff.0 h in
    rw
      (
        cancel_timers-idle transaction_timer_names t none_live.0,
        cancel_table-idle table none_live.1,
      )
      refl

cancel_tables-live : (o : Option (Dict Transaction)) → (cancel_tables o).0 ≡ live_tables o
unfolding cancel_tables
cancel_tables-live none = refl
cancel_tables-live (some table) = cancel_table-live table

cancel_tables-none : (o : Option (Dict Transaction)) → live_tables (cancel_tables o).1 ≡ []
unfolding cancel_tables
cancel_tables-none none = refl
cancel_tables-none (some table) = cancel_table-none table

cancel_tables-idle :
    (o : Option (Dict Transaction)) → live_tables o ≡ [] → cancel_tables o ≡ ([], o)
unfolding cancel_tables
cancel_tables-idle none h = refl
cancel_tables-idle (some table) h = rw (cancel_table-idle table h) refl

-- The timers that are still to fire are cancelled, all of them and no other, the clients' first,
-- each table in its order and each transaction in the order of the names; their number is returned.
-- No attribute is left with a timer that is still to fire, and a second pass cancels nothing and
-- changes nothing.
pub cancel_transaction_timers-Drained :
    (m : TransactionManager)
    → (after : TransactionManager) × (cancel_transaction_timers m
        ≡ (length (live_manager m), live_manager m, after))
      × (live_manager after ≡ [])
      × (cancel_transaction_timers after ≡ (0, [], after))
unfolding cancel_transaction_timers
cancel_transaction_timers-Drained m =
    let none_client = cancel_tables-none m.tclient in
    let none_server = cancel_tables-none m.tserver in
    (
      record { tclient = (cancel_tables m.tclient).1; tserver = (cancel_tables m.tserver).1 },
      rw (cancel_tables-live m.tclient, cancel_tables-live m.tserver) refl,
      rw (none_client, none_server) refl,
      rw (cancel_tables-idle _ none_client, cancel_tables-idle _ none_server) refl,
    )
