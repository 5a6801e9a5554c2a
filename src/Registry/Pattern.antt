-- ===== src/Registry/Pattern.antt =====
-- `get_mod_type`: std::regex_match with the pattern `^archipelago\.[^.]+\..*`. The assertion `^`
-- holds where a whole match begins; `.` stands for all but the line terminators.
use mathlib.Core.List.{append-nil}
use apf_ue4ss.Prelude.{
  ℕ, String, Bool, true, false, not, ◌&&◌, ◌||◌, ◌≡◌, ◌≢◌, refl, sym, ◌∙◌, ap, ◌↔◌, ◌⊎◌, inl, inr,
  List, [], ◌∷◌, ◌++◌, All, arith, ◌==◌, if◌then◌else◌, and_true, Bool-cases, ==_iff, ==_refl,
  All-imp,
}
use apf_ue4ss.Prelude.Text.{codes, bytes}
use apf_ue4ss.Types.Enums.{ModType, regular, priority}

-- A regular expression without alternatives: a row of single characters and repetitions.
pub data Piece : Type 0 where
  one : (ℕ → Bool) → Piece
  star : (ℕ → Bool) → Piece

pub match : List ℕ → List Piece → Bool
match [] [] = true
match (c ∷ s) [] = false
match [] (one p ∷ ps) = false
match (c ∷ s) (one p ∷ ps) = p c && match s ps
match [] (star p ∷ ps) = match [] ps
match (c ∷ s) (star p ∷ ps) = match (c ∷ s) ps || (p c && match s (star p ∷ ps))

abbrev literal : ℕ → Piece
literal c = one (λ d. d == c)

abbrev not_dot : ℕ → Bool
not_dot c = not (c == b'.')

-- The line terminators among single bytes are LF and CR.
abbrev any_char : ℕ → Bool
any_char c = not (c == 10 || c == 13)

abbrev literals : List ℕ → List Piece
literals [] = []
literals (c ∷ cs) = literal c ∷ literals cs

abbrev priority_pattern : List Piece
priority_pattern =
    literals (codes "archipelago.")
    ++ one not_dot ∷ star not_dot ∷ literal b'.' ∷ star any_char ∷ []

unfoldable pub get_mod_type : String → ModType
unfolding match bytes
get_mod_type mod_id = if match (bytes mod_id) priority_pattern then priority else regular

abbrev is_priority : ModType → Bool
is_priority priority = true
is_priority regular = false

unfoldable pub is_priority_client : String → Bool
is_priority_client mod_id = is_priority (get_mod_type mod_id)

-- A text split along a row of pieces.
Matches : List Piece → List ℕ → Type 0
Matches [] s = s ≡ []
Matches (one p ∷ ps) s = (c : ℕ) × (t : List ℕ) × (s ≡ c ∷ t) × (p c ≡ true) × Matches ps t
Matches (star p ∷ ps) s =
    (u : List ℕ) × (t : List ℕ) × (s ≡ u ++ t) × All (λ c. p c ≡ true) u × Matches ps t

or_true : {a b : Bool} → (a || b) ≡ true → (a ≡ true) ⊎ (b ≡ true)
or_true {a} {b} h = ground arith

or_right : (a : Bool) → (a || true) ≡ true
or_right true = refl
or_right false = refl

match_sound : (s : List ℕ) (ps : List Piece) → match s ps ≡ true → Matches ps s
unfolding match Matches
match_sound [] [] h = refl
match_sound (c ∷ s) [] h = cc
match_sound [] (one p ∷ ps) h = cc
match_sound (c ∷ s) (one p ∷ ps) h = let (a, b) = and_true h in (c, s, refl, a, match_sound s ps b)
match_sound [] (star p ∷ ps) h = ([], [], refl, tt, match_sound [] ps h)
match_sound (c ∷ s) (star p ∷ ps) h = elim (or_true h) [
  | inl now ↦ ([], c ∷ s, refl, tt, match_sound (c ∷ s) ps now)
  | inr later ↦
      let (a, b) = and_true later in
      let (u, t, e, all_u, rest) = match_sound s (star p ∷ ps) b in
      (c ∷ u, t, ap (◌∷◌ c) e, (a, all_u), rest)
]

match_star :
    (p : ℕ → Bool) (ps : List Piece) (u t : List ℕ)
    → All (λ c. p c ≡ true) u
    → match t ps ≡ true
    → match (u ++ t) (star p ∷ ps) ≡ true
unfolding match
match_star p ps [] [] h m = m
match_star p ps [] (c ∷ t) h m = ground arith
match_star p ps (c ∷ u) t h m =
    rw (h.0, match_star p ps u t h.1 m) (or_right (match (c ∷ (u ++ t)) ps))

match_complete : (ps : List Piece) (s : List ℕ) → Matches ps s → match s ps ≡ true
unfolding match Matches
match_complete [] s h = rw h
match_complete (one p ∷ ps) s (c, t, e, a, m) = rw (e, a) (match_complete ps t m)
match_complete (star p ∷ ps) s (u, t, e, h, m) =
    rw e (match_star p ps u t h (match_complete ps t m))

literals_split :
    (cs : List ℕ) (ps : List Piece) (s : List ℕ)
    → Matches (literals cs ++ ps) s
    → (t : List ℕ) × (s ≡ cs ++ t) × Matches ps t
unfolding Matches
literals_split [] ps s m = (s, refl, m)
literals_split (c ∷ cs) ps s (d, t, e, a, m) =
    let (v, e', m') = literals_split cs ps t m in (v, cc (e, e', (==_iff d c).0 a), m')

literals_join :
    (cs : List ℕ) (ps : List Piece) (t : List ℕ)
    → Matches ps t
    → Matches (literals cs ++ ps) (cs ++ t)
unfolding Matches
literals_join [] ps t m = m
literals_join (c ∷ cs) ps t m = (c, cs ++ t, refl, ==_refl c, literals_join cs ps t m)

-- `archipelago.<game>.<rest>`, the game a non-empty text without a dot, the rest on one line.
abbrev pub NamesPriority : String → Type 0
NamesPriority mod_id =
    (game : List ℕ) × (rest : List ℕ) × (bytes mod_id
      ≡ codes "archipelago." ++ (game ++ b'.' ∷ rest))
    × (game ≢ [])
    × All (λ c. c ≢ b'.') game
    × All (λ c. (c ≢ 10) × (c ≢ 13)) rest

abbrev tail_pattern : List Piece
tail_pattern = one not_dot ∷ star not_dot ∷ literal b'.' ∷ star any_char ∷ []

tail_split :
    (t : List ℕ)
    → Matches tail_pattern t
    → (game : List ℕ) × (rest : List ℕ) × (t ≡ game ++ b'.' ∷ rest)
      × (game ≢ [])
      × All (λ c. c ≢ b'.') game
      × All (λ c. (c ≢ 10) × (c ≢ 13)) rest
unfolding Matches
tail_split t (c, t1, e1, a, (u, t2, e2, hu, (d, t3, e3, b, (rest, t4, e4, hr, e5)))) = (
  c ∷ u,
  rest,
  cc (e1, e2, e3, e4, e5, (==_iff d b'.').0 b, append-nil rest),
  λ e. cc e,
  (ground arith, All-imp (λ x. not_dot x ≡ true) (λ x. x ≢ b'.') (λ x h. ground arith) u hu),
  All-imp (λ x. any_char x ≡ true) (λ x. (x ≢ 10) × (x ≢ 13)) (λ x h. (ground arith, ground arith))
      rest hr,
)

tail_join :
    (game rest : List ℕ)
    → game ≢ []
    → All (λ c. c ≢ b'.') game
    → All (λ c. (c ≢ 10) × (c ≢ 13)) rest
    → Matches tail_pattern (game ++ b'.' ∷ rest)
unfolding Matches
tail_join [] rest ne hg hr = absurd (ne refl)
tail_join (c ∷ u) rest ne hg hr = (
  c,
  u ++ b'.' ∷ rest,
  refl,
  ground (arith, hg.0),
  (
    u,
    b'.' ∷ rest,
    refl,
    All-imp (λ x. x ≢ b'.') (λ x. not_dot x ≡ true) (λ x h. ground arith) u hg.1,
    (
      b'.',
      rest,
      refl,
      refl,
      (
        rest,
        [],
        sym (append-nil rest),
        All-imp (λ x. (x ≢ 10) × (x ≢ 13)) (λ x. any_char x ≡ true) (λ x h. ground arith) rest hr,
        refl,
      ),
    ),
  ),
)

is_priority_client-match :
    (mod_id : String) → is_priority_client mod_id ≡ match (bytes mod_id) priority_pattern
unfolding is_priority_client get_mod_type
is_priority_client-match mod_id = elim (Bool-cases (match (bytes mod_id) priority_pattern)) [
  | inl hit ↦ rw hit
  | inr miss ↦ rw miss
]

-- A mod is a priority client exactly if its id reads `archipelago.<game>.<rest>`, with a game that is
-- not empty and has no dot and a rest without line breaks.
pub is_priority_client_iff :
    (mod_id : String) → (is_priority_client mod_id ≡ true) ↔ NamesPriority mod_id
is_priority_client_iff mod_id = (
  λ h.
      let found =
        match_sound (bytes mod_id) priority_pattern (sym (is_priority_client-match mod_id) ∙ h) in
      let (t, e, m) = literals_split (codes "archipelago.") tail_pattern (bytes mod_id) found in
      let (game, rest, e', ne, hg, hr) = tail_split t m in
      (game, rest, e ∙ ap (λ (l : List ℕ). codes "archipelago." ++ l) e', ne, hg, hr),
  λ h.
      let (game, rest, e, ne, hg, hr) = h in
      let whole =
        literals_join (codes "archipelago.") tail_pattern (game ++ b'.' ∷ rest)
          (tail_join game rest ne hg hr) in
      is_priority_client-match mod_id
      ∙ ap (λ (l : List ℕ). match l priority_pattern) e
      ∙ match_complete priority_pattern (codes "archipelago." ++ (game ++ b'.' ∷ rest)) whole,
)
