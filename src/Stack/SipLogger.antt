-- ===== src/Stack/SipLogger.antt =====
-- main.py, `_build_sip_logger`: the channel that sippy writes the SIP messages to, and the recorder that
-- the stack shows on its internal API. sippy's logger is a parameter: its state, and what its `write`
-- does to it.
use Prim.Native.Char.{Char}
use as_platform.Base.{
  ℕ, ◌-◌, ◌≡◌, refl, Bool, true, false, String, List, [], ◌∷◌, Option, none, some, length, drop,
  if◌then◌else◌,
}
use as_platform.Messages.{SipMessageRecorder, new_messages, write, dual_write}
use as_platform.Messages.Capture.{writes, history, messages_for_any-writes}

-- The argument of the stack: a recorder, any other object, or nothing.
pub data LoggerArgument (P : Type 0) : Type 0 where
  recorder_given : SipMessageRecorder → LoggerArgument P
  logger_given : P → LoggerArgument P
  nothing_given : LoggerArgument P

-- What the stack hands to sippy. In the last case sippy's logger and the recorder, and whether the
-- `write` of the first has been replaced by `donoting`.
pub data Channel (P : Type 0) : Type 0 where
  recorder_only : SipMessageRecorder → Channel P
  logger_only : P → Channel P
  dual : Bool → P → SipMessageRecorder → Channel P

module _ {P : Type 0} where
  unfoldable pub build_sip_logger : Bool → ℕ → P → LoggerArgument P → Channel P
  build_sip_logger log_payloads max_messages default (recorder_given r) = recorder_only r
  build_sip_logger log_payloads max_messages default (logger_given p) = logger_only p
  build_sip_logger log_payloads max_messages default nothing_given =
      dual (if log_payloads then false else true) default (new_messages max_messages)

  -- The attribute `sip_message_recorder`: the same object as the one in the channel.
  unfoldable pub sip_message_recorder : Channel P → Option SipMessageRecorder
  sip_message_recorder (recorder_only r) = some r
  sip_message_recorder (logger_only p) = none
  sip_message_recorder (dual silent p r) = some r

  -- sippy's own log of the process.
  unfoldable pub sippy_log : Channel P → Option P
  sippy_log (recorder_only r) = none
  sippy_log (logger_only p) = some p
  sippy_log (dual silent p r) = some p

  module _ (is_digit : Char → Bool) (primary_write : String → String → P → P) where
    -- `write` of the object in the configuration.
    unfoldable write_channel : String → String → Channel P → Channel P
    unfolding write dual_write
    write_channel prefix text (recorder_only r) = recorder_only (write is_digit prefix text r)
    write_channel prefix text (logger_only p) = logger_only (primary_write prefix text p)
    write_channel prefix text (dual silent p r) =
        let (p', r') =
          dual_write is_digit (if silent then (λ q t l. l) else primary_write) prefix text (p, r) in
        dual silent p' r'

    unfoldable pub write_messages : List (String × String) → Channel P → Channel P
    unfolding write_channel
    write_messages [] c = c
    write_messages ((prefix, text) ∷ rest) c = write_messages rest (write_channel prefix text c)

    -- sippy's log after a history of messages.
    abbrev pub logged : List (String × String) → P → P
    logged [] p = p
    logged ((prefix, text) ∷ rest) p = logged rest (primary_write prefix text p)

    write_messages-dual :
        (ws : List (String × String)) (p : P) (r : SipMessageRecorder)
        → write_messages ws (dual false p r) ≡ dual false (logged ws p) (writes is_digit ws r)
    unfolding write_messages writes
    write_messages-dual [] p r = refl
    write_messages-dual ((prefix, text) ∷ ws) p r =
        write_messages-dual ws (primary_write prefix text p) (write is_digit prefix text r)

    write_messages-silent :
        (ws : List (String × String)) (p : P) (r : SipMessageRecorder)
        → write_messages ws (dual true p r) ≡ dual true p (writes is_digit ws r)
    unfolding write_messages writes
    write_messages-silent [] p r = refl
    write_messages-silent ((prefix, text) ∷ ws) p r =
        write_messages-silent ws p (write is_digit prefix text r)

    -- The logger that the stack builds for itself: whether payloads are logged or not, after any
    -- history of messages the recorder of the internal API holds the last of them, as many as it
    -- keeps, in their order; sippy's log has all of them if payloads are logged, and is as it was made
    -- if they are not.
    pub write_messages-build_sip_logger :
        (log_payloads : Bool) (n : ℕ) (default : P) (ws : List (String × String))
        → let c = write_messages ws (build_sip_logger log_payloads n default nothing_given) in
          ((r : SipMessageRecorder) × (sip_message_recorder c ≡ some r)
            × (r.messages ≡ drop (length (history is_digit ws) - n) (history is_digit ws)))
          × (sippy_log c ≡ some (if log_payloads then logged ws default else default))
    unfolding build_sip_logger sip_message_recorder sippy_log
    write_messages-build_sip_logger true n default ws =
        rw (write_messages-dual ws default (new_messages n)) (
          (writes is_digit ws (new_messages n), refl, (messages_for_any-writes is_digit [] ws n).0),
          refl,
        )
    write_messages-build_sip_logger false n default ws =
        rw (write_messages-silent ws default (new_messages n)) (
          (writes is_digit ws (new_messages n), refl, (messages_for_any-writes is_digit [] ws n).0),
          refl,
        )
