-- ===== src/Predictor/Example.antt =====
-- A library that meets what the theorems ask of Python's: a list of texts is stored with a mark before
-- each character, and an expression matches the texts that it begins.
use Prim.Native.Char.{Char, code}
use b8mon.Base.{
  ◌≡◌, refl, ap, ◌∙◌, true, false, String, Option, none, some, List, [], ◌∷◌, nat_eq, string_eq,
  ◌==◌, if◌then◌else◌, starts_with,
}
use b8mon.Predictor.{Python}

abbrev pub mark : Char
mark = "x"

abbrev stop : Char
stop = "e"

-- a mark before each character, and a stop after the last one
put : String → String → String
put String.[] rest = String.◌∷◌ stop rest
put (String.◌∷◌ c s) rest = String.◌∷◌ mark (String.◌∷◌ c (put s rest))

unfoldable pub encode : List String → String
unfolding put
encode [] = ""
encode (s ∷ l) = put s (encode l)

abbrev pub started : Option (List String) → Option (List String)
started none = none
started (some l) = some ("" ∷ l)

abbrev longer : Char → Option (List String) → Option (List String)
longer c none = none
longer c (some []) = none
longer c (some (s ∷ l)) = some ((String.◌∷◌ c s) ∷ l)

unfoldable pub decode : String → Option (List String)
decode String.[] = some []
decode (String.◌∷◌ m String.[]) = if code m == 101 then some ("" ∷ []) else none
decode (String.◌∷◌ m (String.◌∷◌ c s)) =
    let end = started (decode (String.◌∷◌ c s)) in
    let more = longer c (decode s) in if code m == 101 then end else more

decode-stop : (r : String) → decode (String.◌∷◌ stop r) ≡ started (decode r)
unfolding decode
decode-stop String.[] = refl
decode-stop (String.◌∷◌ c r) = refl

decode-mark :
    (c : Char) (r : String) → decode (String.◌∷◌ mark (String.◌∷◌ c r)) ≡ longer c (decode r)
unfolding decode
decode-mark c r = refl

decode-put : (s r : String) (l : List String) → decode r ≡ some l → decode (put s r) ≡ some (s ∷ l)
unfolding put
decode-put String.[] r l h = decode-stop r ∙ ap started h
decode-put (String.◌∷◌ c s) r l h = decode-mark c (put s r) ∙ ap (longer c) (decode-put s r l h)

pub decode-encode : (l : List String) → decode (encode l) ≡ some l
unfolding encode
decode-encode [] = unfold decode in refl
decode-encode (s ∷ l) = decode-put s (encode l) l (decode-encode l)

-- a bracket before the encoding, so that no text is empty
abbrev pub load : String → Option (List String)
load String.[] = none
load (String.◌∷◌ c s) = decode s

abbrev pub python : Python
python = record {
  loads = load;
  dumps = λ l. String.◌∷◌ mark (encode l);
  compiles = λ pattern. if pattern == "(" then false else true;
  search = λ pattern text. starts_with text pattern;
  escape = λ text. text;
  to_float = λ text. if text == "2.5" then some 2500000 else some 600000;
  to_int = λ text. none;
}
