-- ===== src/Pipe/Client/Reconnect.antt =====
-- Connections that ap_ipc_client.cpp makes again: the name of the pipe and the read that follows.
use Prim.Native.Char.{Char, code}
use Prim.Native.String.{◌++◌ as append_text}
use Prim.Native.String.append
use mathlib.Core.Option.{some-injective}
use apf_ue4ss.Prelude.{
  ◌==◌, String, true, false, ◌&&◌, ◌≡◌, ◌↔◌, refl, none, some, [], ◌∷◌, if◌then◌else◌, ap, sym,
  subst, Bool-cases, Option-cases, inl, inr, ◌∙◌,
}
use apf_ue4ss.Pipe.Client.{
  Client, connect_handler, disconnect_handler, open_attempts, after_last, reconnect_name, Opening,
  connect, disconnect, start_read,
}

-- `after_last` of a text with a first character, by what it is of the rest.
module _ (c : Char) (s : String) where
  inner : (r : String) → after_last s ≡ some r → after_last (String.◌∷◌ c s) ≡ some r
  unfolding after_last
  inner r h = rw (after_last, h) refl

  bar : after_last s ≡ none → (code c == 95) ≡ true → after_last (String.◌∷◌ c s) ≡ some s
  unfolding after_last
  bar h k = rw (after_last, h, k) refl

  plain : after_last s ≡ none → (code c == 95) ≡ false → after_last (String.◌∷◌ c s) ≡ none
  unfolding after_last
  plain h k = rw (after_last, h, k) refl

after_last_clean : (s r : String) → after_last s ≡ some r → after_last r ≡ none
unfolding after_last
after_last_clean String.[] r h = absurd (cc h)
after_last_clean (String.◌∷◌ c s) r h = elim (Option-cases (after_last s)) [
  | inr (r', e) ↦
      after_last_clean s r (e ∙ ap (λ x. some x) (some-injective r' r (sym (inner c s r' e) ∙ h)))
  | inl e ↦ elim (Bool-cases (code c == 95)) [
    | inl line ↦ subst (λ t. after_last t ≡ none) (some-injective s r (sym (bar c s e line) ∙ h)) e
    | inr other ↦ absurd (cc (h, plain c s e other))
  ]
]

suffix-append : (s t r : String) → after_last t ≡ some r → after_last (append_text s t) ≡ some r
suffix-append String.[] t r h = rw (append.nil t) h
suffix-append (String.◌∷◌ c s) t r h =
    rw (append.cons c s t) (inner c (append_text s t) r (suffix-append s t r h))

clean-append :
    (s t : String) → after_last s ≡ none → after_last t ≡ none → after_last (append_text s t) ≡ none
clean-append String.[] t h k = rw (append.nil t) k
clean-append (String.◌∷◌ c s) t h k = elim (Option-cases (after_last s)) [
  | inr (r, e) ↦ absurd (cc (h, inner c s r e))
  | inl e ↦ elim (Bool-cases (code c == 95)) [
    | inl line ↦ absurd (cc (h, bar c s e line))
    | inr other ↦ rw (append.cons c s t) (plain c (append_text s t) (clean-append s t e k) other)
  ]
]

after_last-append :
    (s t r : String)
    → after_last s ≡ some r
    → after_last t ≡ none
    → after_last (append_text s t) ≡ some (append_text r t)
unfolding after_last
after_last-append String.[] t r h k = absurd (cc h)
after_last-append (String.◌∷◌ c s) t r h k =
    rw (append.cons c s t) (elim (Option-cases (after_last s)) [
      | inr (r', e) ↦
          inner c (append_text s t) (append_text r t)
            (after_last-append s t r (e ∙ (sym (inner c s r' e) ∙ h)) k)
      | inl e ↦ elim (Bool-cases (code c == 95)) [
        | inl line ↦
            bar c (append_text s t) (clean-append s t e k) line
            ∙ ap (λ x. some (append_text x t)) (some-injective s r (sym (bar c s e line) ∙ h))
        | inr other ↦ absurd (cc (h, plain c s e other))
      ]
    ])

-- `poll` connects again to the pipe of the game that it was connected to if and only if the name of
-- the game has no underscore.
pub reconnect_name_iff :
    (game : String)
    → (reconnect_name (append_text "\\\\.\\pipe\\APFramework_" game) ≡ game)
      ↔ (after_last game ≡ none)
unfolding reconnect_name
reconnect_name_iff game = (
  (λ h. elim (Option-cases (after_last game)) [
    | inl e ↦ e
    | inr (r, e) ↦
        let back : r ≡ game =
          sym (rw (reconnect_name, suffix-append "\\\\.\\pipe\\APFramework_" game r e) refl) ∙ h in
        subst (λ t. after_last t ≡ none) back (after_last_clean game r e)
  ]),
  (λ h.
      rw (reconnect_name, after_last-append "\\\\.\\pipe\\APFramework_" game "" refl h)
        (append.nil game)),
)

module _ {J : Type 0} where
  disconnect-on :
      (c : Client J)
      → c.connected ≡ true
      → disconnect c ≡ (record c { connected = false }, disconnect_handler ∷ [])
  unfolding disconnect
  disconnect-on c on = simp on

  connect-reading :
      (c : Client J) (game_name : String) (opening : Opening)
      → c.reading ≡ true
      → (connect (record c { connected = false }) game_name opening).1 ≡ (
          if (connect (record c { connected = false }) game_name opening).2
          then connect_handler ∷ []
          else [])
  unfolding connect start_read
  connect-reading c game_name opening reads =
      elim (Bool-cases
        (open_attempts opening.opens 3 0 && opening.mode_set && opening.event_created)) [
          | inl opened ↦ rw (connect, opened, reads) refl
          | inr shut ↦ rw (connect, shut) refl
        ]

  -- A client that disconnects while a read is under way starts no read when it connects again: it
  -- stays marked as reading a pipe that is closed, whatever the new connection meets.
  pub connect-disconnect :
      (c : Client J) (game_name : String) (opening : Opening)
      → c.connected ≡ true
      → c.reading ≡ true
      → (connect (disconnect c).0 game_name opening).1
        ≡ (if (connect (disconnect c).0 game_name opening).2 then connect_handler ∷ [] else [])
  unfolding disconnect
  connect-disconnect c game_name opening on reads =
      subst
        (λ d.
          (connect d game_name opening).1
          ≡ (if (connect d game_name opening).2 then connect_handler ∷ [] else []))
        (sym (ap (λ r. r.0) (disconnect-on c on))) (connect-reading c game_name opening reads)
