-- ===== src/Incidents/Hash.antt =====
-- The key under which incidents are told apart does not depend on the order of the hosts.
use mathlib.Core.List.{Perm, Permᴰ}
use mathlib.Core.Logic.{∥∥₁_elim}
use mathlib.Core.Path.{ap₂}
use b8mon.Base.{prefix, decimal, join, map, ℕ, String, ◌≡◌, refl, ap, ◌∙◌, List, [], ◌∷◌, arith}
use b8mon.Incidents.{insert, sorted, host_ids_hash}

insert_comm : (a b : ℕ) (l : List ℕ) → insert a (insert b l) ≡ insert b (insert a l)
unfolding insert
insert_comm a b [] = ground arith
insert_comm a b (c ∷ l) = ground (arith, insert_comm a b l)

sorted-permᴰ : {xs ys : List ℕ} → Permᴰ xs ys → sorted xs ≡ sorted ys
unfolding sorted
sorted-permᴰ Permᴰ.nil = refl
sorted-permᴰ (Permᴰ.cons {a = a} e p) = ap₂ insert e (sorted-permᴰ p)
sorted-permᴰ (Permᴰ.swap {a = a} {b = b} {l = l} e f) =
    insert_comm a b (sorted l) ∙ ap₂ (λ x y. insert x (insert y (sorted l))) f e
sorted-permᴰ (Permᴰ.trans p q) = sorted-permᴰ p ∙ sorted-permᴰ q

list_set : IsSet (List ℕ)
list_set = hlevel

-- Two lists of the same hosts in any order have one hash, whatever the digest is, so they meet in
-- one incident.
pub host_ids_hash-perm :
    (digest : String → String) (xs ys : List ℕ)
    → Perm xs ys
    → host_ids_hash digest xs ≡ host_ids_hash digest ys
unfolding host_ids_hash
host_ids_hash-perm digest xs ys p =
    ap (λ ids. prefix 16 (digest (join "," (map decimal ids))))
      (∥∥₁_elim p (list_set (sorted xs) (sorted ys)) sorted-permᴰ)
