-- ===== src/HostCheck/Health.antt =====
-- What a host's two flags say of its checks.
use b8mon.Base.{
  ℕ, ◌≡◌, refl, ap, ◌∙◌, Bool, false, not, ◌&&◌, Option, some, List, [], ◌∷◌, arith, keep, any, all,
  Bool-cases, inl, inr, string_eq,
}
use b8mon.HostCheck.{
  PingHost, Check, Outcome, check_types, outcomes, is_icmp, is_fine, is_online, has_port_error,
  Report, report_of, check_host,
}

split_all :
    (os : List Outcome)
    → (all is_fine (keep is_icmp os)
        && not (any (λ o. not o.fine) (keep (λ o. not (is_icmp o)) os)))
      ≡ all is_fine os
split_all [] = refl
split_all (o ∷ os) = ground (arith, split_all os)

no_icmp :
    (os : List Outcome)
    → any is_icmp os ≡ false
    → not (any (λ o. not o.fine) (keep (λ o. not (is_icmp o)) os)) ≡ all is_fine os
no_icmp [] h = refl
no_icmp (o ∷ os) h = ground (arith, no_icmp os)

all-any :
    (o : Outcome) (os : List Outcome)
    → (any is_fine (o ∷ os) && all is_fine (o ∷ os)) ≡ all is_fine (o ∷ os)
all-any o os = ground arith

-- A host that gets at least one check is online without a port error exactly when every one of its
-- checks succeeded, with or without an ICMP check among them.
pub healthy-all :
    (o : Outcome) (os : List Outcome)
    → (is_online (o ∷ os) && not (has_port_error (o ∷ os))) ≡ all is_fine (o ∷ os)
unfolding is_online has_port_error
healthy-all o os = elim (Bool-cases (any is_icmp (o ∷ os))) [
  | inl y ↦ rw y (both _ _ ∙ split_all (o ∷ os))
  | inr n ↦
      rw n (both _ _ ∙ ap (λ b. any is_fine (o ∷ os) && b) (no_icmp (o ∷ os) n) ∙ all-any o os)
]
  where
    both : (a b : Bool) → (a && not (a && b)) ≡ (a && not b)
    both a b = ground arith

-- What `check_host` reports of a host that gets at least one check: it is online without a port
-- error exactly when every one of its checks succeeded.
pub check_host-healthy :
    (run : Check → Bool × Option ℕ) (host : PingHost) (o : Outcome) (os : List Outcome)
    → outcomes run host (check_types host) ≡ some (o ∷ os)
    → (r : Report) × (check_host run host ≡ some r)
      × ((r.online && not r.port_error) ≡ all is_fine (o ∷ os))
unfolding check_host report_of
check_host-healthy run host o os e =
    (report_of host (o ∷ os), rw (e, check_host) refl, healthy-all o os)
