-- ===== src/SipAdapter.antt =====
-- sip_adapter.py: the identifiers of the second leg, and the end of a transaction manager's timers.
-- Whether an address literal is IPv6 is for Python's `ipaddress`, how a text is quoted for `repr`:
-- both are parameters.
pub mod Uris
pub mod Timers
pub mod Drained
use Prim.Native.Char.{Char, code}
use as_platform.Base.{
  ℕ, suc, ◌+◌, ◌<>◌, Bool, true, false, not, ◌||◌, ◌==◌, String, List, [], ◌∷◌, ◌++◌, Option, none,
  some, eqb, if◌then◌else◌, length,
}
use as_platform.Base.Dict.{Dict, get_or, insert}
use as_platform.Base.Text.{str, strip}
use as_platform.Errors.{AsError, as_error, error_code, peer_malformed_request}
use as_platform.World.{NextHop}

abbrev pub passthrough_headers : List String
passthrough_headers =
    "p-asserted-identity" ∷ "p-preferred-identity" ∷ "privacy" ∷ "p-charging-vector"
    ∷ "p-charging-function-addresses" ∷ "p-visited-network-id" ∷ "subject" ∷ "organization"
    ∷ "priority" ∷ []

abbrev pub b2bua_call_id_suffix : String
b2bua_call_id_suffix = "-b2b_1"

abbrev pub transaction_timer_names : List String
transaction_timer_names = "teA" ∷ "teB" ∷ "teC" ∷ "teD" ∷ "teE" ∷ "teF" ∷ "teG" ∷ []

-- A timer of the event loop: the callback is gone once it has run or has been cancelled.
pub record Timer : Type 0 where
  pub ident : ℕ
  pub pending : Bool

-- The timer attributes of a transaction. Every timer belongs to one attribute of one transaction.
abbrev pub Transaction : Type 0
Transaction = Dict (Option Timer)

-- The two tables, which a manager that is shut down no longer has.
pub record TransactionManager : Type 0 where
  pub tclient : Option (Dict Transaction)
  pub tserver : Option (Dict Transaction)

-- The timer of one attribute: cancelled, with the attribute emptied, if it is still to fire.
unfoldable pub cancel_timer_of : Option Timer → String → Transaction → List ℕ × Transaction
cancel_timer_of none name transaction = ([], transaction)
cancel_timer_of (some timer) name transaction =
    if timer.pending then (timer.ident ∷ [], insert name none transaction) else ([], transaction)

-- `for timer_name in TRANSACTION_TIMER_NAMES`: which timers are cancelled, in order.
unfoldable pub cancel_timers : List String → Transaction → List ℕ × Transaction
cancel_timers [] transaction = ([], transaction)
cancel_timers (name ∷ names) transaction =
    let (first, t) = cancel_timer_of (get_or name none transaction) name transaction in
    let (others, u) = cancel_timers names t in (first ++ others, u)

unfoldable pub cancel_table : Dict Transaction → List ℕ × Dict Transaction
cancel_table [] = ([], [])
cancel_table ((key, transaction) ∷ table) =
    let (first, t) = cancel_timers transaction_timer_names transaction in
    let (others, rest) = cancel_table table in (first ++ others, (key, t) ∷ rest)

-- A missing table is skipped.
unfoldable pub cancel_tables : Option (Dict Transaction) → List ℕ × Option (Dict Transaction)
cancel_tables none = ([], none)
cancel_tables (some table) = let (ids, t) = cancel_table table in (ids, some t)

-- The count that is returned, the timers whose `cancel` is called, and the manager.
unfoldable pub cancel_transaction_timers : TransactionManager → ℕ × List ℕ × TransactionManager
cancel_transaction_timers m =
    let (client, tclient) = cancel_tables m.tclient in
    let (server, tserver) = cancel_tables m.tserver in
    (length (client ++ server), client ++ server, record { tclient = tclient; tserver = tserver })

-- One character of the pattern.
unfoldable pub expect : ℕ → String → Option String
expect c String.[] = none
expect c (String.◌∷◌ x s) = if eqb (code x) c then some s else none

-- `c?`
unfoldable pub optional : ℕ → String → String
optional c s = elim (expect c s) [ none ↦ s | some rest ↦ rest ]

unfoldable pub after : Option String → ℕ → Option String
after none c = none
after (some s) c = expect c s

-- `sips?:`
unfoldable pub scheme : String → Option String
scheme s = elim (after (after (expect 115 s) 105) 112) [
  | none ↦ none
  | some rest ↦ expect 58 (optional 115 rest)
]

-- `[@;?]`
unfoldable pub is_delimiter : Char → Bool
is_delimiter c = eqb (code c) 64 || eqb (code c) 59 || eqb (code c) 63

-- `[^@;?]*`, and what comes after it.
unfoldable pub span_user : String → String × String
span_user String.[] = ("", "")
span_user (String.◌∷◌ c s) =
    let (user, rest) = span_user s in
    if is_delimiter c then ("", String.◌∷◌ c s) else (String.◌∷◌ c user, rest)

-- `([^@;?]+)@`
unfoldable pub user_of : String × String → Option String
user_of (user, rest) =
    if user == "" then none else elim (expect 64 rest) [ none ↦ none | some _ ↦ some user ]

-- `_USER_FROM_URI.match(text)`
unfoldable pub match_user : String → Option String
match_user text = elim (scheme text) [ none ↦ none | some rest ↦ user_of (span_user rest) ]

pub data Extracted : Type 0 where
  number : String → Extracted
  malformed : AsError → Extracted

unfoldable pub extract_called_number : (String → String) → String → Extracted
extract_called_number repr request_uri = elim (match_user (strip request_uri)) [
  | some user ↦ number user
  | none ↦ malformed (
      as_error (error_code peer_malformed_request)
        (some ("request-uri has no user part: " <> repr request_uri)) none
        (("request_uri", request_uri) ∷ []))
]

-- `ip_address(address).version == 6`; an address that does not parse has no version.
unfoldable is_ipv6 : (String → Option ℕ) → String → Bool
is_ipv6 ip_version address = elim (ip_version address) [ none ↦ false | some v ↦ eqb v 6 ]

unfoldable pub uri_host : (String → Option ℕ) → NextHop → String
unfolding is_ipv6
uri_host ip_version hop =
    if is_ipv6 ip_version hop.address then "[" <> (hop.address <> "]") else hop.address

unfoldable pub build_request_uri : (String → Option ℕ) → String → NextHop → String
build_request_uri ip_version called hop =
    "sip:"
    <> (called
        <> ("@"
            <> (uri_host ip_version hop
                <> (":" <> (str hop.port <> (";transport=" <> hop.transport))))))

unfoldable pub outbound_call_id : String → String
outbound_call_id trunk_call_id = trunk_call_id <> b2bua_call_id_suffix
