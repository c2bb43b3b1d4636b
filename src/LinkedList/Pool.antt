-- ===== src/LinkedList/Pool.antt =====
-- The objects of one type that `malloc` has given out: what each address holds. An address is never
-- given out twice, and `free` leaves the pool as it is.
use lixy.Base.{ℕ, ◌+◌, ◌==◌, if◌then◌else◌}

pub record Pool (A : Type 0) : Type 0 where
  pub next : ℕ
  pub cell : ℕ → A

abbrev pub update {ℓ} : {A : Type ℓ} → (ℕ → A) → ℕ → A → ℕ → A
update f p a q = if q == p then a else f q

-- The new object's address is `pool.next`.
abbrev pub malloc : {A : Type 0} → Pool A → A → Pool A
malloc pool a = record { next = pool.next + 1; cell = update pool.cell pool.next a }

-- An assignment through the pointer.
abbrev pub store : {A : Type 0} → Pool A → ℕ → A → Pool A
store pool p a = record pool { cell = update pool.cell p a }
