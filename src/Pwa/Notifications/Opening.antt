-- ===== src/Pwa/Notifications/Opening.antt =====
-- A push, and the click on the notification that it shows.
use platform_rally_extension.Base.{
  String, ◌==◌, Same-text, same_refl, ◌≡◌, refl, sym, ◌∙◌, ap, Bool, true, false, none, some, List,
  [], ◌∷◌, ◌++◌, any, find, arith, Bool-cases, Option-cases, inl, inr,
}
use platform_rally_extension.Pwa.Badge.{Numerals}
use platform_rally_extension.Pwa.Notifications.{
  Text, PushData, payload_of, notification_of, Call, show_notification, close_notification, focus,
  open_window, Browser, on_push, is_dismissal, on_notification_click,
}

-- The call brings up the URL: the focus goes to a window of the list whose URL includes it, or a
-- window is opened on it where none does.
pub data Lands (strings : Text) (windows : List String) (url : String) : Call → Type 0 where
  on_existing :
      (w : String)
      → strings.includes w url ≡ true
      → any (λ v. v == w) windows ≡ true
      → Lands strings windows url (focus w)
  on_new :
      any (λ v. strings.includes v url) windows ≡ false
      → Lands strings windows url (open_window url)

find-found :
    (p : String → Bool) (xs : List String) (x : String)
    → find p xs ≡ some x
    → (p x ≡ true) × (any (λ v. v == x) xs ≡ true)
find-found p [] x e = cc e
find-found p (y ∷ ys) x e = elim (Bool-cases (p y)) [
  | inl h ↦
      let e' : some y ≡ some x = rw h at e in
      let q : y ≡ x = cc e' in (sym (ap p q) ∙ h, rw (q, same_refl x) refl)
  | inr h ↦ let (holds, there) = find-found p ys x (rw h at e) in (holds, ground (arith, there))
]

find-missed : (p : String → Bool) (xs : List String) → find p xs ≡ none → any p xs ≡ false
find-missed p [] e = refl
find-missed p (y ∷ ys) e = ground (arith, find-missed p ys)

-- Whatever data a push carries, and none, it adds one call to the list: for the notification that the
-- data describes. When that is clicked, on its body or on "open", it is closed and then its URL is
-- brought up: in a window that is listed and includes the URL, and in a new one only if no window
-- does.
pub on_push-click :
    (numerals : Numerals) (strings : Text) (event_data : PushData) (action : String) (b : Browser)
    → is_dismissal action ≡ false
    → let n = notification_of (payload_of event_data) in
      (c : Call) × Lands strings b.windows n.url c
      × ((on_notification_click strings action n (on_push numerals event_data b)).calls
          ≡ ((b.calls ++ show_notification n ∷ []) ++ close_notification n ∷ []) ++ c ∷ [])
unfolding on_push on_notification_click
on_push-click numerals strings event_data action b h =
    let n = notification_of (payload_of event_data) in
    let p : String → Bool = λ v. strings.includes v n.url in
    elim (Option-cases (find p b.windows)) [
      | inl e ↦ (open_window n.url, on_new (find-missed p b.windows e), rw (h, e) refl)
      | inr (w, e) ↦
          let (holds, there) = find-found p b.windows w e in
          (focus w, on_existing w holds there, rw (h, e) refl)
    ]
