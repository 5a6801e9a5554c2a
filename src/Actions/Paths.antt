-- ===== src/Actions/Paths.antt =====
-- Paths of Lua functions and properties.
use Prim.Native.Char.{Char, code}
use Prim.Native.String.{◌++◌ as append_text}
use Prim.Native.String.append
use apf_ue4ss.Prelude.{
  ◌==◌, String, none, List, [], ◌∷◌, ◌++◌, filter-append, ◌≡◌, refl, sym, ap, ◌∙◌, ◌≢◌, Bool-cases,
  Option-cases, inl, inr,
}
use apf_ue4ss.Actions.{
  onto_first, split, not_empty, path_parts, Lua, navigate, from_globals, resolve_function_path,
}

onto_first-append :
    (c : Char) (pieces rest : List String)
    → pieces ≢ []
    → onto_first c (pieces ++ rest) ≡ onto_first c pieces ++ rest
unfolding onto_first
onto_first-append c [] rest h = absurd (h refl)
onto_first-append c (piece ∷ pieces) rest h = refl

onto_first-nonempty : (c : Char) (pieces : List String) → onto_first c pieces ≢ []
unfolding onto_first
onto_first-nonempty c [] e = cc e
onto_first-nonempty c (piece ∷ pieces) e = cc e

split-nonempty : (s : String) → split s ≢ []
unfolding split
split-nonempty String.[] e = cc e
split-nonempty (String.◌∷◌ c s) e = elim (Bool-cases (code c == 46)) [
  | inl dot ↦ cc (rw (split, dot) at e)
  | inr other ↦ onto_first-nonempty c (split s) (rw (split, other) at e)
]

split-dot : (t : String) → split (append_text "." t) ≡ "" ∷ split t
unfolding split
split-dot t = rw (append.cons _ "" t, append.nil t) refl

split-append : (s t : String) → split (append_text s (append_text "." t)) ≡ split s ++ split t
unfolding split
split-append String.[] t = rw (append.nil (append_text "." t)) (split-dot t)
split-append (String.◌∷◌ c s) t =
    rw (append.cons c s (append_text "." t)) (elim (Bool-cases (code c == 46)) [
      | inl dot ↦ rw (split, dot, split-append s t) refl
      | inr other ↦
          rw (split, other, split-append s t)
            (onto_first-append c (split s) (split t) (split-nonempty s))
    ])

path_parts-append :
    (s t : String) → path_parts (append_text s (append_text "." t)) ≡ path_parts s ++ path_parts t
unfolding path_parts
path_parts-append s t = rw (split-append s t) (filter-append not_empty (split s) (split t))

module _ {J V : Type 0} (lua : Lua J V) where
  navigate-nil : (qs : List String) → lua.index lua.nil ≡ none → navigate lua lua.nil qs ≡ lua.nil
  unfolding navigate
  navigate-nil [] h = refl
  navigate-nil (q ∷ qs) h = rw (navigate, h) refl

  navigate-append :
      (v : V) (ps qs : List String)
      → lua.index lua.nil ≡ none
      → navigate lua v (ps ++ qs) ≡ navigate lua (navigate lua v ps) qs
  unfolding navigate
  navigate-append v [] qs h = refl
  navigate-append v (p ∷ ps) qs h = elim (Option-cases (lua.index v)) [
    | inr (table, e) ↦ rw (navigate, e) (navigate-append (table p) ps qs h)
    | inl e ↦ rw (navigate, e) (sym (navigate-nil qs h))
  ]

  globals-append :
      (ps qs : List String)
      → ps ≢ []
      → lua.index lua.nil ≡ none
      → from_globals lua (ps ++ qs) ≡ navigate lua (from_globals lua ps) qs
  unfolding from_globals
  globals-append [] qs first h = absurd (first refl)
  globals-append (p ∷ ps) qs first h = navigate-append (lua.global p) ps qs h

  -- A path through a dot is the path behind it, taken from where the path in front of it leads; so
  -- empty parts do not matter, and a path that is broken in front is nil. The first part is not
  -- empty, and nil is no table.
  pub resolve_function_path-append :
      (s t : String)
      → path_parts s ≢ []
      → lua.index lua.nil ≡ none
      → resolve_function_path lua (append_text s (append_text "." t))
        ≡ navigate lua (resolve_function_path lua s) (path_parts t)
  unfolding resolve_function_path
  resolve_function_path-append s t first h =
      ap (λ ps. from_globals lua ps) (path_parts-append s t)
      ∙ globals-append (path_parts s) (path_parts t) first h
