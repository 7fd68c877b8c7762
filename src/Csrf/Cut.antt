-- ===== src/Csrf/Cut.antt =====
-- Cutting a text at its last dot.
use Prim.Native.Char.{Char, code}
use Prim.Native.String.{◌++◌}
use text.Mathlib.TextEquality.{Char-path}
use text.Mathlib.TextLemmas.{cons-append, nil-append, append-nil, cons-ne-nil}
use b8mon.Base.{
  ◌≡◌, refl, sym, ◌≢◌, ap, ◌∙◌, inl, inr, Option-cases, String, none, some, [], ◌∷◌, nat_eq, arith,
  f_string,
}
use b8mon.Csrf.{rsplit_dot}

abbrev pub HasNoDot : String → Type 0
HasNoDot String.[] = Unit
HasNoDot (String.◌∷◌ c s) = (code c ≢ 46) × HasNoDot s

rsplit_dot-HasNoDot : (s : String) → HasNoDot s → rsplit_dot s ≡ none
unfolding rsplit_dot
rsplit_dot-HasNoDot String.[] h = refl
rsplit_dot-HasNoDot (String.◌∷◌ c s) h = ground (arith, rsplit_dot-HasNoDot s h.1)

-- the text that `f"{token}.{sig}"` makes
abbrev pub dotted : String → String → String
dotted token sig = f_string (token ∷ "." ∷ sig ∷ [])

abbrev dot : Char
dot = "."

dot-append : (sig : String) → "." ++ sig ≡ String.◌∷◌ dot sig
dot-append sig = cons-append dot "" sig ∙ ap (String.◌∷◌ dot) (nil-append sig)

dotted_nil : (sig : String) → dotted "" sig ≡ String.◌∷◌ dot sig
dotted_nil sig = rw (nil-append, append-nil) (dot-append sig)

dotted_cons :
    (c : Char) (token sig : String)
    → dotted (String.◌∷◌ c token) sig ≡ String.◌∷◌ c (dotted token sig)
dotted_cons c token sig = cons-append c token ("." ++ (sig ++ ""))

pub rsplit_dot-dotted :
    (token sig : String) → HasNoDot sig → rsplit_dot (dotted token sig) ≡ some (token, sig)
unfolding rsplit_dot
rsplit_dot-dotted String.[] sig h = rw (dotted_nil sig) (ground (arith, rsplit_dot-HasNoDot sig h))
rsplit_dot-dotted (String.◌∷◌ c token) sig h =
    rw (dotted_cons c token sig) (ground (arith, rsplit_dot-dotted token sig h))

none-HasNoDot : (s : String) → rsplit_dot s ≡ none → HasNoDot s
unfolding rsplit_dot
none-HasNoDot String.[] h = tt
none-HasNoDot (String.◌∷◌ c s) h = ground (arith, none-HasNoDot s)

pub rsplit_dot-some :
    (s token sig : String)
    → rsplit_dot s ≡ some (token, sig)
    → (s ≡ dotted token sig) × HasNoDot sig
unfolding rsplit_dot
rsplit_dot-some String.[] token sig h = cc
rsplit_dot-some (String.◌∷◌ c s) token sig h = elim (Option-cases (rsplit_dot s)) [
  | inl e ↦
      let d : code c ≡ 46 = ground (arith, h) in
      let p : ("" ≡ token) × (s ≡ sig) = ground (arith, h) in
      let at_dot : c ≡ dot = Char-path c dot d in
      let cut : String.◌∷◌ c s ≡ dotted "" s =
        ap (λ x. String.◌∷◌ x s) at_dot ∙ sym (dotted_nil s) in
      rw (← p.0, ← p.1) (cut, none-HasNoDot s e)
  | inr ((before, after), e) ↦
      let p : (String.◌∷◌ c before ≡ token) × (after ≡ sig) = ground (arith, h) in
      let (spelt, plain) = rsplit_dot-some s before after e in
      rw (← p.0, ← p.1) (ap (String.◌∷◌ c) spelt ∙ sym (dotted_cons c before after), plain)
]

pub dotted-ne-nil : (token sig : String) → dotted token sig ≢ ""
dotted-ne-nil String.[] sig e = cons-ne-nil dot sig (sym (dotted_nil sig) ∙ e)
dotted-ne-nil (String.◌∷◌ c token) sig e =
    cons-ne-nil c (dotted token sig) (sym (dotted_cons c token sig) ∙ e)
