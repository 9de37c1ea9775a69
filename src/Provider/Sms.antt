-- ===== src/Provider/Sms.antt =====
-- server/internal/service/sms/sender.go. The provider's HTTP answer and its JSON reading are given.
use kaftar.Prelude.{
  ℕ, String, Option, none, some, List, [], ◌∷◌, Bool, not, ◌||◌, if◌then◌else◌, str_eq, ltb_ℤ,
  eqb_ℤ, ℤ, pos, length, any, ◌==◌,
}
use Prim.Native.String.{◌++◌ as append}
use kaftar.Entity.Message.{Bytes, Message, SmsMessage, sms, is_empty}
use kaftar.Provider.Client.{
  ProviderError, failure, safe_error, Result, ok, err, ◌>>=◌, ◌>>◌, guard, error_of, Response,
  response,
}

pub record Entry : Type 0 where
  pub id : ℤ
  pub status : ℤ

pub record SmsResult : Type 0 where
  pub return_status : ℤ
  pub entries : List Entry

-- The sender's settings, and what the libraries answer: http.NewRequest, client.Do on the request with the
-- receptors, json.Unmarshal, and how numbers are printed.
pub record SmsSender : Type 0 where
  pub phone : String
  pub api_key : String
  pub build : Result (Unit {0})
  pub perform : List String → String → Result Response
  pub decode : Bytes → Option SmsResult
  pub print : ℕ → String
  pub print_int : ℤ → String

abbrev pub accepted_statuses : List ℤ
accepted_statuses = pos 1 ∷ pos 2 ∷ pos 4 ∷ pos 5 ∷ pos 10 ∷ []

abbrev pub is_accepted : ℤ → Bool
unfolding any
is_accepted status = any (λ s. eqb_ℤ s status) accepted_statuses

abbrev pub decoded : Option SmsResult → Result SmsResult
decoded none = err (failure "sms: invalid response")
decoded (some r) = ok r

-- *entity.SMSMessage, if the message is one that can be sent.
unfoldable pub sendable : Message → Result SmsMessage
sendable (sms m) =
    if is_empty m.to || str_eq m.text "" then err (failure "sms: invalid message") else ok m
sendable _ = err (failure "sms: invalid message")

abbrev pub of_context : Option ProviderError → Result (Unit {0})
of_context none = ok tt
of_context (some e) = err e

module _ (sender : SmsSender) where
  -- The loop over the entries.
  unfoldable pub check_entries : List Entry → Result (Unit {0})
  unfolding any
  check_entries [] = ok tt
  check_entries (e ∷ entries) = do
    guard (ltb_ℤ (pos 0) e.id) (failure "sms: response has no message ID")
    guard (is_accepted e.status)
        (failure (append "sms: message status " (sender.print_int e.status)))
    check_entries entries

  unfoldable pub check_result : SmsMessage → SmsResult → Result (Unit {0})
  unfolding check_entries
  check_result m r = do
    guard (eqb_ℤ r.return_status (pos 200))
        (failure (append "sms: API error " (sender.print_int r.return_status)))
    guard (length r.entries == length m.to) (failure "sms: incomplete acceptance response")
    check_entries r.entries

  -- Send before the deferred SafeError.
  unfoldable pub send_checked : Option ProviderError → Message → Result (Unit {0})
  unfolding sendable check_result response
  send_checked context message = do
    of_context context
    m ← sendable message
    guard (not (str_eq sender.api_key "")) (failure "sms: API key is required")
    sender.build
    body ← response sender.print "sms" 200 (sender.perform m.to (append m.text "\n"))
    r ← decoded (sender.decode body)
    check_result m r

  -- (*sender).Send
  unfoldable pub send : Option ProviderError → Message → Option ProviderError
  unfolding send_checked safe_error
  send context message = safe_error "sms" (error_of (send_checked context message))
