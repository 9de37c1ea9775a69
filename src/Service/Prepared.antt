-- ===== src/Service/Prepared.antt =====
-- What accept keeps of a message and its options.
use kaftar.Prelude.{
  ◌≡◌, refl, sym, ap, ◌∙◌, String, Option, none, some, arith, Bool-cases, inl, inr, ℤ, pos, negsuc,
  not, str_eq, str_eq_iff,
}
use kaftar.Entity.Channel.{
  Channel, channel_sms, channel_email, channel_mattermost, channel_bale, channel_http,
}
use kaftar.Entity.Message.{
  Bytes, Go, Message, sms, email, mattermost, bale, http, channel_of, unmarshal_message, validate,
  wrap,
}
use kaftar.Service.Errors.{Result, ok, err, ◌>>=◌}
use kaftar.Service.Retry.{normalize_max_retries}
use kaftar.Service.Accept.{
  Service, SendOptions, Submission, prepare, or_invalid, require, require_valid, normalize_http,
  normalize_send_at, valid_key, is_null,
}

bind-ok :
    {A B : Type 0} {b : B} (r : Result A) (f : A → Result B)
    → (r >>= f) ≡ ok b
    → (a : A) × (r ≡ ok a) × (f a ≡ ok b)
bind-ok (ok a) f h = (a, refl, h)
bind-ok (err e) f h = absurd (ground arith)

is_there : {A : Type 0} (o : Option A) (a : A) → or_invalid o ≡ ok a → o ≡ some a
is_there none a h = absurd (ground arith)
is_there (some b) a h = grind (arith, h)

still_valid : (r : Message × Option String) (v : Message) → require_valid r ≡ ok v → r.0 ≡ v
still_valid (m, none) v h = grind (arith, h)
still_valid (m, some e) v h = absurd (ground arith)

channel_of-validate : (go : Go) (m : Message) → channel_of (validate go m).0 ≡ channel_of m
unfolding validate channel_of
channel_of-validate go (sms m) = refl
channel_of-validate go (email m) = refl
channel_of-validate go (mattermost m) = refl
channel_of-validate go (bale m) = refl
channel_of-validate go (http m) = refl

channel_of-normalize_http :
    (go : Go) (m : Message) → channel_of (normalize_http go m) ≡ channel_of m
unfolding normalize_http channel_of
channel_of-normalize_http go (http m) = refl
channel_of-normalize_http go (sms m) = refl
channel_of-normalize_http go (email m) = refl
channel_of-normalize_http go (mattermost m) = refl
channel_of-normalize_http go (bale m) = refl

wrapped :
    {X : Type 0} (f : X → Message) (k : Channel) (o : Option X) (m : Message)
    → ((x : X) → channel_of (f x) ≡ k)
    → wrap f o ≡ some m
    → channel_of m ≡ k
wrapped f k none m c h = absurd (ground arith)
wrapped f k (some x) m c h = ap channel_of (sym (same_message (f x) m h)) ∙ c x
  where
    same_message : (a b : Message) → some a ≡ some b → a ≡ b
    same_message a b h = grind (arith, h)

-- UnmarshalMessage gives a message of the channel that it is asked for.
channel_of-unmarshal_message :
    (go : Go) (channel : Channel) (bytes : Bytes) (m : Message)
    → unmarshal_message go channel bytes ≡ some m
    → channel_of m ≡ channel
unfolding unmarshal_message channel_of
channel_of-unmarshal_message go channel bytes m h = elim (Bool-cases (str_eq channel channel_sms)) [
  | inl e ↦
      wrapped sms channel_sms (go.decode_sms bytes) m (λ x. refl) (rw (e) at h)
      ∙ sym ((str_eq_iff channel channel_sms).0 e)
  | inr a ↦ elim (Bool-cases (str_eq channel channel_email)) [
    | inl e ↦
        wrapped email channel_email (go.decode_email bytes) m (λ x. refl) (rw (a, e) at h)
        ∙ sym ((str_eq_iff channel channel_email).0 e)
    | inr b ↦ elim (Bool-cases (str_eq channel channel_mattermost)) [
      | inl e ↦
          wrapped mattermost channel_mattermost (go.decode_mattermost bytes) m (λ x. refl)
            (rw (a, b, e) at h)
          ∙ sym ((str_eq_iff channel channel_mattermost).0 e)
      | inr c ↦ elim (Bool-cases (str_eq channel channel_bale)) [
        | inl e ↦
            wrapped bale channel_bale (go.decode_bale bytes) m (λ x. refl) (rw (a, b, c, e) at h)
            ∙ sym ((str_eq_iff channel channel_bale).0 e)
        | inr d ↦ elim (Bool-cases (str_eq channel channel_http)) [
          | inl e ↦
              wrapped http channel_http (go.decode_http bytes) m (λ x. refl)
                (rw (a, b, c, d, e) at h)
              ∙ sym ((str_eq_iff channel channel_http).0 e)
          | inr e ↦ absurd (ground (arith, rw (a, b, c, d, e) at h))
        ]
      ]
    ]
  ]
]

-- A limit that is not negative is kept, and a negative one means none.
abbrev pub limit_of : ℤ → ℤ
limit_of (pos n) = pos n
limit_of (negsuc n) = negsuc 0

limit-normalize : (n : ℤ) → normalize_max_retries n ≡ limit_of n
unfolding normalize_max_retries
limit-normalize (pos n) = ground arith
limit-normalize (negsuc n) = ground arith

-- What a submission has of its message and its options.
pub record IsOf (message : Message) (options : SendOptions) (p : Submission) : Type 0 where
  pub channel : p.channel ≡ channel_of message
  pub limit : p.max_retries ≡ limit_of options.max_retries
  pub key : p.key ≡ options.idempotency_key

pub prepare-IsOf :
    (svc : Service) (message : Message) (options : SendOptions) (p : Submission)
    → prepare svc message options ≡ ok p
    → IsOf message options p
unfolding prepare
prepare-IsOf svc message options p h =
    let (u, v, h1) = bind-ok (require (valid_key options.idempotency_key)) _ h in
    let (raw, r, h2) = bind-ok (or_invalid (svc.go.encode message)) _ h1 in
    let (u', w, h3) = bind-ok (require (not (is_null raw))) _ h2 in
    let (decoded, d, h4) =
      bind-ok (or_invalid (unmarshal_message svc.go (channel_of message) raw)) _ h3 in
    let (valid, k, h5) = bind-ok (require_valid (validate svc.go decoded)) _ h4 in
    let (payload, e, h6) =
      bind-ok (or_invalid (svc.go.encode (normalize_http svc.go valid))) _ h5 in
    let (send_at, t, h7) = bind-ok (normalize_send_at options.send_at) _ h6 in
    let (body, b, h8) =
      bind-ok
        (or_invalid (svc.canonical payload (normalize_max_retries options.max_retries) send_at)) _
        h7 in
    record {
      channel =
          sym (ap (λ (q : Submission). q.channel) (same_submission _ _ h8))
          ∙ channel_of-normalize_http svc.go valid
          ∙ ap channel_of (sym (still_valid (validate svc.go decoded) valid k))
          ∙ channel_of-validate svc.go decoded
          ∙ channel_of-unmarshal_message svc.go (channel_of message) raw decoded
              (is_there _ decoded d);
      limit =
          sym (ap (λ (q : Submission). q.max_retries) (same_submission _ _ h8))
          ∙ limit-normalize options.max_retries;
      key = sym (ap (λ (q : Submission). q.key) (same_submission _ _ h8));
    }
  where
    same_submission : (a b : Submission) → ◌≡◌ {A = Result Submission} (ok a) (ok b) → a ≡ b
    same_submission a b h = grind (arith, h)
