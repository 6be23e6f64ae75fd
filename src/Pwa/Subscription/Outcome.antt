-- ===== src/Pwa/Subscription/Outcome.antt =====
-- What a click on the switch of the notifications leaves.
use platform_rally_extension.Base.{
  String, ◌≡◌, ◌≢◌, ◌⊎◌, inl, inr, refl, Bool-cases, same_refl, Bool, true, false, not, ◌==◌,
  Same-text, Option, none, some, List, [], ◌∷◌, any, filter, arith,
}
use platform_rally_extension.Pwa.Subscription.{
  unsubscribed, subscribed, Permission, granted_permission, denied_permission, default_permission,
  Features, is_push_supported, Push, mounted, usable_key, resolve_status, Answers, registered,
  asked, with_key, subscribe, unsubscribe,
}

-- The browser is subscribed, and the server sends to the endpoint.
pub data Delivers (p : Push) : Type 0 where
  delivers :
      (endpoint : String)
      → p.subscription ≡ some endpoint
      → any (λ e. e == endpoint) p.server ≡ true
      → Delivers p

-- The switch was not turned on, or it delivers.
abbrev IsHonest : Push → Type 0
IsHonest p = (p.status ≢ subscribed) ⊎ Delivers p

registered-IsHonest :
    (o : Option String) (registers : Bool) (p : Push)
    → p.status ≢ subscribed
    → IsHonest (registered o registers p)
registered-IsHonest none registers p h = inl h
registered-IsHonest (some endpoint) true p h =
    inr (delivers endpoint refl (rw (same_refl endpoint) refl))
registered-IsHonest (some endpoint) false p h = inl h

asked-IsHonest :
    (decision : Permission) (a : Answers) (p : Push)
    → p.status ≢ subscribed
    → IsHonest (asked decision a p)
asked-IsHonest granted_permission a p h = registered-IsHonest a.endpoint a.registers _ h
asked-IsHonest denied_permission a p h = inl (λ e. cc e)
asked-IsHonest default_permission a p h = inl (λ e. cc e)

with_key-IsHonest :
    (key : Option (Option String)) (a : Answers) (p : Push)
    → p.status ≢ subscribed
    → IsHonest (with_key key a p)
with_key-IsHonest none a p h = inl h
with_key-IsHonest (some key) a p h = elim (Bool-cases (usable_key key)) [
  | inl e ↦ rw e (asked-IsHonest a.decision a p h)
  | inr e ↦ rw e (inl (λ d. cc d))
]

idle-IsHonest : (p : Push) → IsHonest p → IsHonest (record p { loading = false })
idle-IsHonest p (inl h) = inl h
idle-IsHonest p (inr (delivers endpoint here there)) = inr (delivers endpoint here there)

-- However the calls of `subscribe` end, the switch is free again; and if it did not say "subscribed"
-- before, it says so now only when the browser holds a subscription to whose endpoint the server
-- sends.
pub subscribe_lem :
    (a : Answers) (p : Push)
    → p.status ≢ subscribed
    → ((subscribe a p).loading ≡ false)
      × (((subscribe a p).status ≢ subscribed) ⊎ Delivers (subscribe a p))
unfolding subscribe
subscribe_lem a p h = (refl, idle-IsHonest _ (with_key-IsHonest a.key a _ h))

any-without :
    (e : String) (es : List String) → any (λ x. x == e) (filter (λ x. not (x == e)) es) ≡ false
any-without e [] = refl
any-without e (x ∷ xs) = ground (arith, any-without e xs)

-- When the server and the browser both accept the end of a subscription, neither has it any more;
-- and however the calls end, the switch is free again.
pub unsubscribe_lem :
    (endpoint : String) (p : Push) (unregisters unsubscribes : Bool)
    → p.subscription ≡ some endpoint
    → ((unsubscribe unregisters unsubscribes p).loading ≡ false)
      × ((unsubscribe true true p).status ≡ unsubscribed)
      × ((unsubscribe true true p).subscription ≡ none)
      × (any (λ e. e == endpoint) (unsubscribe true true p).server ≡ false)
unfolding unsubscribe
unsubscribe_lem endpoint p unregisters unsubscribes h =
    (refl, rw h refl, rw h refl, rw h (any-without endpoint p.server))

abbrev pub refused_at : String → String → Answers
refused_at key endpoint = record {
  key = some (some key);
  decision = granted_permission;
  endpoint = some endpoint;
  registers = false;
}

-- A device whose subscription the server refused: the switch does not say "subscribed", but where the
-- page is loaded again it does, while the server still does not send to the endpoint.
pub refused-looks_subscribed :
    (features : Features) (key endpoint : String) (p : Push)
    → is_push_supported features ≡ true
    → usable_key (some key) ≡ true
    → p.status ≡ unsubscribed
    → any (λ e. e == endpoint) p.server ≡ false
    → let p₁ = subscribe (refused_at key endpoint) p in
      let p₂ =
        resolve_status features
          (some (some key))
          false
          (mounted p₁.permission p₁.subscription p₁.server) in
      (p₁.status ≡ unsubscribed)
      × (p₂.status ≡ subscribed)
      × (any (λ e. e == endpoint) p₂.server ≡ false)
unfolding subscribe resolve_status
refused-looks_subscribed features key endpoint p supported usable off away =
    (rw usable off, rw (supported, usable) refl, rw (supported, usable) away)
