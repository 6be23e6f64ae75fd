-- ===== src/Pwa/Rotation/Handover.antt =====
-- What becomes of a subscription that the worker parks.
use mathlib.Core.Path.{subst}
use platform_rally_extension.Base.{
  ℕ, ◌≡◌, ◌⊎◌, inl, inr, refl, sym, ◌∙◌, ap, Bool, true, false, Option, none, some, List, [], ◌∷◌,
  ◌++◌, All, All-middle, All-end, suc, arith,
}
use platform_rally_extension.Pwa.Rotation.{
  SubscriptionJson, Rotation, on_subscription_change, park_result, or_resubscribe,
  take_pending_subscription, clear_pending_subscription, took, start_sync, send, end_sync,
  sync_accepted, sync_rejected, parsed,
}

-- `JSON.parse` reads back what `JSON.stringify` wrote.
abbrev pub ReadsBack : {S : Type 0} → SubscriptionJson S → Type 0
ReadsBack {S} json = (s : S) → json.parse (json.stringify s) ≡ some s

module _ {S : Type 0} (json : SubscriptionJson S) where
  -- The browser's events, in an order in which no rotation falls between the read of the parked
  -- subscription by a `sync` and the end of that `sync`.
  pub data Step {K : Type 0} (subscribe : K → Option S) : Rotation S → Rotation S → Type 0 where
    rotated :
        (new : Option S) (old_key : Option K) (windows : ℕ) (r : Rotation S)
        → r.taken ≡ []
        → r.syncing ≡ []
        → r.clearing ≡ 0
        → Step subscribe r (on_subscription_change json new old_key subscribe windows r)
    started : (r : Rotation S) → Step subscribe r (start_sync json true r)
    sent :
        (cancelled : Bool) (xs : List S) (s : S) (ys : List S) (r : Rotation S)
        → r.taken ≡ xs ++ s ∷ ys
        → Step subscribe r (send json cancelled s (xs ++ ys) r)
    accepted :
        (xs : List S) (s : S) (ys : List S) (r : Rotation S)
        → r.syncing ≡ xs ++ s ∷ ys
        → Step subscribe r (sync_accepted json s (xs ++ ys) r)
    rejected :
        (xs : List S) (s : S) (ys : List S) (r : Rotation S)
        → r.syncing ≡ xs ++ s ∷ ys
        → Step subscribe r (sync_rejected json (xs ++ ys) r)
    ended :
        (waiting : ℕ) (r : Rotation S)
        → r.clearing ≡ suc waiting
        → Step subscribe r (end_sync json true waiting r)

  pub data Reach {K : Type 0} (subscribe : K → Option S) (q : Rotation S)
      : Rotation S → Type 0 where
    here : Reach subscribe q q
    next : {r t : Rotation S} → Reach subscribe q r → Step subscribe r t → Reach subscribe q t

  abbrev pub first : List S → Option S
  first [] = none
  first (s ∷ ss) = some s

  -- Nothing is parked, and the worker holds the last subscription that the server accepted, or none.
  abbrev pub at_rest : List S → Rotation S
  at_rest server = record {
    pending = none;
    current = first server;
    taken = [];
    syncing = [];
    clearing = 0;
    server = server;
    posted = [];
  }

  -- The worker's subscription is parked, or the last that the server accepted and nothing is parked; no
  -- call has read or sends another; and where one is to delete, the server has the worker's.
  pub record IsSound (r : Rotation S) : Type 0 where
    pub kept :
        (parsed json r.pending ≡ r.current) ⊎ ((r.pending ≡ none) × (first r.server ≡ r.current))
    pub read : All (λ s. r.current ≡ some s) r.taken
    pub sending : All (λ s. r.current ≡ some s) r.syncing
    pub clears : (r.clearing ≡ 0) ⊎ (first r.server ≡ r.current)

  park-IsSound :
      ReadsBack json
      → (windows : ℕ) (o : Option S) (r : Rotation S) → r.taken ≡ []
      → r.syncing ≡ []
      → r.clearing ≡ 0
      → IsSound r
      → IsSound (park_result json windows o r)
  park-IsSound back windows none r t e z h = h
  park-IsSound back windows (some s) r t e z h = record {
    kept = inl (back s);
    read = subst (All (λ u. some s ≡ some u)) (sym t) tt;
    sending = subst (All (λ u. some s ≡ some u)) (sym e) tt;
    clears = inl z;
  }

  parked_current :
      (r : Rotation S) (s : S) → IsSound r → parsed json r.pending ≡ some s → r.current ≡ some s
  parked_current r s h e = elim h.kept [
    | inl k ↦ sym k ∙ e
    | inr (gone, k) ↦ let d : none ≡ some s = sym (ap (parsed json) gone) ∙ e in cc d
  ]

  took-IsSound :
      (o : Option S) (r : Rotation S)
      → parsed json r.pending ≡ o
      → IsSound r
      → IsSound (took json o r)
  took-IsSound none r e h = h
  took-IsSound (some s) r e h = record {
    kept = h.kept;
    read = All-end _ r.taken s h.read (parked_current r s h e);
    sending = h.sending;
    clears = h.clears;
  }

  ended-IsSound :
      (waiting : ℕ) (r : Rotation S)
      → r.clearing ≡ suc waiting
      → IsSound r
      → IsSound (end_sync json true waiting r)
  unfolding end_sync clear_pending_subscription
  ended-IsSound waiting r e h = elim h.clears [
    | inl z ↦ absurd (omega (arith, e, z))
    | inr k ↦ record { kept = inr (refl, k); read = h.read; sending = h.sending; clears = inr k }
  ]

  Step-IsSound :
      {K : Type 0} {subscribe : K → Option S} {r t : Rotation S}
      → ReadsBack json
      → Step subscribe r t
      → IsSound r
      → IsSound t
  unfolding on_subscription_change start_sync take_pending_subscription send sync_accepted
      sync_rejected
  Step-IsSound {subscribe = subscribe} back (rotated new old_key windows r t e z) h =
      park-IsSound back windows (or_resubscribe json new subscribe old_key) r t e z h
  Step-IsSound back (started r) h = took-IsSound (parsed json r.pending) r refl h
  Step-IsSound back (sent true xs s ys r e) h =
      let (now, others) = All-middle _ xs s ys (subst (All (λ u. r.current ≡ some u)) e h.read) in
      record { kept = h.kept; read = others; sending = h.sending; clears = h.clears }
  Step-IsSound back (sent false xs s ys r e) h =
      let (now, others) = All-middle _ xs s ys (subst (All (λ u. r.current ≡ some u)) e h.read) in
      record {
        kept = h.kept;
        read = others;
        sending = All-end _ r.syncing s h.sending now;
        clears = h.clears;
      }
  Step-IsSound back (accepted xs s ys r e) h =
      let (now, others) =
        All-middle _ xs s ys (subst (All (λ u. r.current ≡ some u)) e h.sending) in
      record {
        kept = elim h.kept [ inl k ↦ inl k | inr (gone, k) ↦ inr (gone, sym now) ];
        read = h.read;
        sending = others;
        clears = inr (sym now);
      }
  Step-IsSound back (rejected xs s ys r e) h =
      let (now, others) =
        All-middle _ xs s ys (subst (All (λ u. r.current ≡ some u)) e h.sending) in
      record { kept = h.kept; read = h.read; sending = others; clears = h.clears }
  Step-IsSound back (ended waiting r e) h = ended-IsSound waiting r e h

  -- From a state in which nothing is parked and the worker holds the last subscription that the server
  -- accepted: as long as no rotation falls between the read of the parked subscription by a `sync` and
  -- the end of that `sync`, then after whatever rotations and parts of calls of `sync`, in any order,
  -- the subscription that the worker holds is still parked for the next `sync`, or it is the last one
  -- that the server accepted.
  pub Reach-IsKept :
      {K : Type 0} (subscribe : K → Option S) (server : List S) {r : Rotation S}
      → ReadsBack json
      → Reach subscribe (at_rest server) r
      → (parsed json r.pending ≡ r.current) ⊎ ((r.pending ≡ none) × (first r.server ≡ r.current))
  Reach-IsKept subscribe server back reach = (go back reach).kept
    where
      go :
          {K : Type 0} {subscribe : K → Option S} {r : Rotation S}
          → ReadsBack json
          → Reach subscribe (at_rest server) r
          → IsSound r
      go back here = record { kept = inr (refl, refl); read = tt; sending = tt; clears = inl refl }
      go back (next reach step) = Step-IsSound back step (go back reach)

  -- A rotation to `t` while the request for a parked `s` is awaited: the request is accepted, the
  -- parked `t` is deleted with it, and `s` is the last subscription that the server accepted.
  pub rotation_lost :
      {K : Type 0} (subscribe : K → Option S) (old_key : Option K) (windows : ℕ) (s t : S)
      (r : Rotation S)
      → r.taken ≡ []
      → r.syncing ≡ []
      → parsed json r.pending ≡ some s
      → let r₁ =
          on_subscription_change json
            (some t)
            old_key
            subscribe
            windows
            (send json false s [] (start_sync json true r)) in
        let r₂ = end_sync json true r.clearing (sync_accepted json s [] r₁) in
        ((start_sync json true r).taken ≡ s ∷ [])
        × (parsed json r₁.pending ≡ json.parse (json.stringify t))
        × (r₁.syncing ≡ s ∷ [])
        × (r₂.current ≡ some t)
        × (r₂.pending ≡ none)
        × (first r₂.server ≡ some s)
  unfolding sync_accepted on_subscription_change clear_pending_subscription start_sync send end_sync
      take_pending_subscription
  rotation_lost subscribe old_key windows s t r none_taken idle e =
      (rw (e, none_taken) refl, refl, rw (e, idle) refl, refl, refl, refl)
