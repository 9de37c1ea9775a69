-- ===== src/App/Wiring.antt =====
-- The configuration decides which channels the service has.
use kaftar.Prelude.{
  ◌≡◌, refl, String, ap, some, List, [], ◌∷◌, ◌++◌, map, Bool, true, false, arith, any, str_eq,
  if◌then◌else◌,
}
use kaftar.Entity.Channel.{
  Channel, channel_sms, channel_email, channel_mattermost, channel_bale, channel_http, is_valid,
}
use kaftar.Provider.Client.{Result, ok, err, ◌>>=◌}
use kaftar.Provider.Inversion.{bind-ok}
use kaftar.Service.Workers.{Consumers, register_senders, put_consumer, stopped}
use kaftar.App.Config.{Config}
use kaftar.App.Senders.{
  Sender, Libraries, channel_of, sms_sender, email_sender, new_email, new_mattermost, new_bale,
  new_http, if_enabled, init_senders, init_service,
}

abbrev pub if_on : Bool → Channel → List Channel
if_on b c = if b then c ∷ [] else []

-- The channels that the configuration enables.
abbrev pub enabled_channels : Config → List Channel
enabled_channels c =
    if_on c.sms.enabled channel_sms
    ++ (if_on c.email.enabled channel_email
        ++ (if_on c.mattermost.enabled channel_mattermost
            ++ (if_on c.bale.enabled channel_bale ++ if_on c.http_sender.enabled channel_http)))

-- New registers the channels as they are.
IsRegistered : List Channel → Type 0
IsRegistered cs =
    (consumers : Consumers) × (register_senders (map (λ c. some c) cs) ≡ some (cs, consumers))

register_more :
    (b : Bool) (c : Channel) (cs : List Channel)
    → is_valid c ≡ true
    → any (λ k. str_eq k c) cs ≡ false
    → IsRegistered cs
    → IsRegistered (if_on b c ++ cs)
unfolding IsRegistered register_senders
register_more true c cs v absent (consumers, e) =
    (put_consumer c stopped consumers, rw (v, e, absent) refl)
register_more false c cs v absent r = r

absent_more :
    (b : Bool) (c d : Channel) (cs : List Channel)
    → str_eq d c ≡ false
    → any (λ k. str_eq k c) cs ≡ false
    → any (λ k. str_eq k c) (if_on b d ++ cs) ≡ false
unfolding any
absent_more true c d cs h a = ground (arith, h, a)
absent_more false c d cs h a = a

last_absent :
    (b : Bool) (c d : Channel) → str_eq d c ≡ false → any (λ k. str_eq k c) (if_on b d) ≡ false
unfolding any
last_absent true c d h = ground (arith, h)
last_absent false c d h = refl

last-IsRegistered : (b : Bool) → IsRegistered (if_on b channel_http)
unfolding IsRegistered register_senders is_valid
last-IsRegistered true = (put_consumer channel_http stopped [], refl)
last-IsRegistered false = ([], refl)

enabled-IsRegistered : (config : Config) → IsRegistered (enabled_channels config)
unfolding is_valid
enabled-IsRegistered config =
    let https = config.http_sender.enabled in
    let bales = config.bale.enabled in
    let mattermosts = config.mattermost.enabled in
    let emails = config.email.enabled in
    let absent =
      λ (c : Channel) (d : str_eq channel_http c ≡ false). last_absent https c channel_http d in
    register_more config.sms.enabled channel_sms _ refl
      (absent_more emails channel_sms channel_email _ refl (
        absent_more mattermosts channel_sms channel_mattermost _ refl
          (absent_more bales channel_sms channel_bale _ refl (absent channel_sms refl))))
      (register_more emails channel_email _ refl
        (absent_more mattermosts channel_email channel_mattermost _ refl
          (absent_more bales channel_email channel_bale _ refl (absent channel_email refl)))
        (register_more mattermosts channel_mattermost _ refl
          (absent_more bales channel_mattermost channel_bale _ refl
            (absent channel_mattermost refl))
          (register_more bales channel_bale _ refl (absent channel_bale refl)
            (last-IsRegistered https))))

map-append : (l m : List Sender) → map channel_of (l ++ m) ≡ map channel_of l ++ map channel_of m
map-append [] m = refl
map-append (s ∷ l) m = ap (λ cs. channel_of s ∷ cs) (map-append l m)

carries :
    {A : Type 0} (r : Result A) (f : A → Sender) (c : Channel)
    → ((a : A) → channel_of (f a) ≡ c)
    → (s : Sender) → (r >>= λ a. ok (f a)) ≡ ok s
    → channel_of s ≡ c
carries (ok a) f c k s h = grind (arith, h, k a)
carries (err e) f c k s h = absurd (ground arith)

same_value : (a b : List Sender) → ◌≡◌ {A = Result (List Sender)} (ok a) (ok b) → b ≡ a
same_value a b h = grind (arith, h)

twice_mapped :
    (senders : List Sender)
    → map (λ s. some (channel_of s)) senders ≡ map (λ c. some c) (map channel_of senders)
twice_mapped [] = refl
twice_mapped (s ∷ senders) = ap (λ cs. some (channel_of s) ∷ cs) (twice_mapped senders)

module _ (libs : Libraries) (config : Config) where
  -- A sender that is enabled and made has its channel.
  made :
      (b : Bool) (r : Result Sender) (c : Channel) (l : List Sender)
      → ((s : Sender) → r ≡ ok s → channel_of s ≡ c)
      → if_enabled libs config b r ≡ ok l
      → map channel_of l ≡ if_on b c
  made false r c l h e = grind (arith, e)
  made true (ok s) c l h e = grind (arith, e, h s refl)
  made true (err x) c l h e = absurd (ground arith)

  email_made : (s : Sender) → new_email libs config ≡ ok s → channel_of s ≡ channel_email
  unfolding new_email channel_of
  email_made = carries _ email_sender channel_email (λ a. refl)

  mattermost_made :
      (s : Sender) → new_mattermost libs config ≡ ok s → channel_of s ≡ channel_mattermost
  unfolding new_mattermost channel_of
  mattermost_made = carries _ _ channel_mattermost (λ a. refl)

  bale_made : (s : Sender) → new_bale libs config ≡ ok s → channel_of s ≡ channel_bale
  unfolding new_bale channel_of
  bale_made = carries _ _ channel_bale (λ a. refl)

  http_made : (s : Sender) → new_http libs config ≡ ok s → channel_of s ≡ channel_http
  unfolding new_http channel_of
  http_made = carries _ _ channel_http (λ a. refl)

  sms_made :
      (key phone : String) (s : Sender)
      → ◌≡◌ {A = Result Sender} (ok (sms_sender key phone)) (ok s)
      → channel_of s ≡ channel_sms
  unfolding channel_of
  sms_made key phone s h = grind (arith, h)

  channels_made :
      (senders : List Sender)
      → init_senders libs config ≡ ok senders
      → map channel_of senders ≡ enabled_channels config
  unfolding init_senders
  channels_made senders h =
      let (l1, e1, h1) =
        bind-ok
          (if_enabled libs config config.sms.enabled
            (ok (sms_sender config.sms.api_key config.sms.phone)))
          _ h in
      let (l2, e2, h2) =
        bind-ok (if_enabled libs config config.email.enabled (new_email libs config)) _ h1 in
      let (l3, e3, h3) =
        bind-ok (if_enabled libs config config.mattermost.enabled (new_mattermost libs config)) _
          h2 in
      let (l4, e4, h4) =
        bind-ok (if_enabled libs config config.bale.enabled (new_bale libs config)) _ h3 in
      let (l5, e5, h5) =
        bind-ok (if_enabled libs config config.http_sender.enabled (new_http libs config)) _ h4 in
      let whole : senders ≡ l1 ++ (l2 ++ (l3 ++ (l4 ++ l5))) = same_value _ _ h5 in
      rw
        (
          whole,
          map-append l1 (l2 ++ (l3 ++ (l4 ++ l5))),
          map-append l2 (l3 ++ (l4 ++ l5)),
          map-append l3 (l4 ++ l5),
          map-append l4 l5,
          made config.sms.enabled _ channel_sms l1 (sms_made config.sms.api_key config.sms.phone)
              e1,
          made config.email.enabled _ channel_email l2 email_made e2,
          made config.mattermost.enabled _ channel_mattermost l3 mattermost_made e3,
          made config.bale.enabled _ channel_bale l4 bale_made e4,
          made config.http_sender.enabled _ channel_http l5 http_made e5,
        )
        refl

  -- If initService can make the senders that the configuration enables, they are of the enabled
  -- channels, each once, and New accepts them with these channels.
  pub init_senders-channels :
      (senders : List Sender)
      → init_senders libs config ≡ ok senders
      → (map channel_of senders ≡ enabled_channels config)
        × ((consumers : Consumers) × (init_service senders
              ≡ some (enabled_channels config, consumers)))
  unfolding init_service IsRegistered
  init_senders-channels senders h =
      let m = channels_made senders h in
      let (consumers, r) = enabled-IsRegistered config in
      (m, (consumers, rw (twice_mapped senders, m) r))
