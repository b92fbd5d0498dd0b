-- ===== src/Engine/Isolated/Drain/Accounts.antt =====
-- What the effects of an isolated drain take and give back (crates/executor/src/lib.rs).
use kiln_cli.Engine.Isolated.Drain.{Effect, provisioned, exchanged, revoked, torn_down}
use kiln_cli.Prelude.{if◌then◌else◌, ℕ, ◌+◌, ◌≡◌, Bool, true, false, List, [], ◌∷◌, ◌++◌, arith}

abbrev pub is_provisioned : Effect → Bool
is_provisioned (provisioned _) = true
is_provisioned _ = false

abbrev pub is_torn_down : Effect → Bool
is_torn_down (torn_down _) = true
is_torn_down _ = false

abbrev pub is_exchanged : Effect → Bool
is_exchanged (exchanged _) = true
is_exchanged _ = false

abbrev pub is_revoked : Effect → Bool
is_revoked (revoked _) = true
is_revoked _ = false

abbrev pub count : (Effect → Bool) → List Effect → ℕ
count p [] = 0
count p (e ∷ es) = (if p e then 1 else 0) + count p es

pub count-append :
    (p : Effect → Bool) (es fs : List Effect) → count p (es ++ fs) ≡ count p es + count p fs
count-append p [] fs = omega arith
count-append p (e ∷ es) fs = omega (arith, count-append p es fs)

-- So many more sandboxes were provisioned than torn down, and leases exchanged than revoked.
pub record Holds (sandboxes leases : ℕ) (es : List Effect) : Type 0 where
  pub sandboxes_open : count is_provisioned es ≡ sandboxes + count is_torn_down es
  pub leases_open : count is_exchanged es ≡ leases + count is_revoked es

pub Holds-append :
    (s l : ℕ) (es fs : List Effect) (s' l' : ℕ)
    → Holds s l es
    → s + count is_provisioned fs ≡ s' + count is_torn_down fs
    → l + count is_exchanged fs ≡ l' + count is_revoked fs
    → Holds s' l' (es ++ fs)
Holds-append s l es fs s' l' w a b = record {
  sandboxes_open = omega (
    arith,
    w.sandboxes_open,
    a,
    count-append is_provisioned es fs,
    count-append is_torn_down es fs,
  );
  leases_open =
      omega
        (arith, w.leases_open, b, count-append is_exchanged es fs, count-append is_revoked es fs);
}

-- Effects that take and give back nothing.
pub record IsNeutral (es : List Effect) : Type 0 where
  pub provisions : count is_provisioned es ≡ 0
  pub teardowns : count is_torn_down es ≡ 0
  pub exchanges : count is_exchanged es ≡ 0
  pub revocations : count is_revoked es ≡ 0

pub IsNeutral-append : (es fs : List Effect) → IsNeutral es → IsNeutral fs → IsNeutral (es ++ fs)
IsNeutral-append es fs v w = record {
  provisions = omega (arith, count-append is_provisioned es fs, v.provisions, w.provisions);
  teardowns = omega (arith, count-append is_torn_down es fs, v.teardowns, w.teardowns);
  exchanges = omega (arith, count-append is_exchanged es fs, v.exchanges, w.exchanges);
  revocations = omega (arith, count-append is_revoked es fs, v.revocations, w.revocations);
}

pub Holds-IsNeutral :
    (s l : ℕ) (es fs : List Effect) → Holds s l es → IsNeutral fs → Holds s l (es ++ fs)
Holds-IsNeutral s l es fs w n =
    Holds-append s l es fs s l w (omega (arith, n.provisions, n.teardowns))
      (omega (arith, n.exchanges, n.revocations))
