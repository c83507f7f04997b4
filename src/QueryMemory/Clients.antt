-- ===== src/QueryMemory/Clients.antt =====
-- src/runtime/memory.rs: what the clients of a memory account for, and how a change of one client
-- changes the sums.
use spark_x_distributed_quer.Base.{
  ℕ, zero, suc, ◌+◌, ◌≤◌, ◌≡◌, ap, max, some, List, [], ◌∷◌, arith, get_elem?, set, u64_max,
  some_eq,
}
use spark_x_distributed_quer.QueryMemory.{MemoryState, Client, System}

-- The bytes that a client accounts for.
abbrev pub claim : Client → ℕ
claim (Client.idle bytes) = bytes
claim (Client.loaded bytes current additional) = bytes
claim (Client.exchanged bytes additional next) = bytes + additional

abbrev pub claims : List Client → ℕ
claims [] = 0
claims (c ∷ cs) = claim c + claims cs

-- The peak that a client still has to write.
abbrev pub mark : Client → ℕ
mark (Client.exchanged bytes additional next) = next
mark _ = 0

abbrev pub highest : ℕ → List Client → ℕ
highest peak [] = peak
highest peak (c ∷ cs) = max (mark c) (highest peak cs)

pub record IsWithin (s : System) : Type 0 where
  pub exact : s.memory.reserved_bytes ≡ claims s.clients
  pub within : s.memory.reserved_bytes ≤ s.memory.limit_bytes
  pub ranged : s.memory.limit_bytes ≤ u64_max
  pub peak_within : highest s.memory.peak_bytes s.clients ≤ s.memory.limit_bytes
  pub peaked : s.memory.reserved_bytes ≤ highest s.memory.peak_bytes s.clients

-- What an action must do to one client and the memory.
pub record Keeps (m : MemoryState) (c : Client) (m' : MemoryState) (c' : Client) : Type 0 where
  pub limit : m'.limit_bytes ≡ m.limit_bytes
  pub exact : m'.reserved_bytes + claim c ≡ m.reserved_bytes + claim c'
  pub within : m'.reserved_bytes ≤ m.limit_bytes
  pub marked : mark c' ≤ m.limit_bytes
  pub peak : m.peak_bytes ≤ m'.peak_bytes
  pub written : m'.peak_bytes ≤ max m.peak_bytes (mark c)
  pub covered : mark c ≤ max (mark c') m'.peak_bytes
  pub reached : m'.reserved_bytes ≤ max m.reserved_bytes (mark c')

pub claims-set :
    (cs : List Client) (i : ℕ) (c c' : Client)
    → get_elem? cs i ≡ some c
    → claims (set cs i c') + claim c ≡ claims cs + claim c'
claims-set [] i c c' h = absurd (ground (arith, h))
claims-set (d ∷ cs) zero c c' h = ground arith
claims-set (d ∷ cs) (suc i) c c' h = omega (arith, claims-set cs i c c' h)

pub claims-get :
    (cs : List Client) (i : ℕ) (c : Client) → get_elem? cs i ≡ some c → claim c ≤ claims cs
claims-get [] i c h = absurd (ground (arith, h))
claims-get (d ∷ cs) zero c h = ground arith
claims-get (d ∷ cs) (suc i) c h = omega (arith, claims-get cs i c h)

pub highest-get :
    (cs : List Client) (i p : ℕ) (c : Client) → get_elem? cs i ≡ some c → mark c ≤ highest p cs
highest-get [] i p c h = absurd (ground (arith, h))
highest-get (d ∷ cs) zero p c h = let same : mark d ≡ mark c = ap mark (some_eq h) in omega arith
highest-get (d ∷ cs) (suc i) p c h = omega (arith, highest-get cs i p c h)

pub highest_mono :
    (cs : List Client) (p p' : ℕ)
    → p ≤ p'
    → (highest p cs ≤ highest p' cs)
      × (highest p' cs ≤ max p' (highest p cs))
      × (p' ≤ highest p' cs)
highest_mono [] p p' h = (h, omega arith, omega arith)
highest_mono (c ∷ cs) p p' h =
    let (x, y, z) = highest_mono cs p p' h in (omega arith, omega arith, omega arith)

pub highest-set :
    (cs : List Client) (i p p' : ℕ) (c c' : Client)
    → get_elem? cs i ≡ some c
    → p ≤ p'
    → p' ≤ max p (mark c)
    → mark c ≤ max (mark c') p'
    → (highest p cs ≤ highest p' (set cs i c'))
      × (highest p' (set cs i c') ≤ max (mark c') (highest p cs))
      × (mark c' ≤ highest p' (set cs i c'))
highest-set [] i p p' c c' h a b d = absurd (ground (arith, h))
highest-set (e ∷ cs) zero p p' c c' h a b d =
    let same : mark e ≡ mark c = ap mark (some_eq h) in
    let (x, y, z) = highest_mono cs p p' a in
    let (_, _, low) = highest_mono cs p p (omega arith) in (omega arith, omega arith, omega arith)
highest-set (e ∷ cs) (suc i) p p' c c' h a b d =
    let (x, y, z) = highest-set cs i p p' c c' h a b d in (omega arith, omega arith, omega arith)
