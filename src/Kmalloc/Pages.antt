-- ===== src/Kmalloc/Pages.antt =====
-- The free list of one page, and what taking and putting back a block do to it.
use native.Mathlib.Nat.{mul-le-mul_right, suc-mul, mul-mod_left}
use prog.Kmalloc.{Pageref, sizes, invalid_offset, pageaddr, blocktype_of}
use prog.Prelude.{
  ℕ, zero, suc, ◌+◌, ◌*◌, ◌/◌, ◌%◌, ◌^◌, ◌<◌, ◌≤◌, ◌≡◌, refl, subst, ◌==◌, if◌then◌else◌, List, [],
  ◌∷◌, ◌++◌, some, arith, length, get_elem?, Distinct, In,
}

-- The blocks `ks` of a page are linked from the address `a` on.
abbrev pub Link : (ℕ → ℕ) → ℕ → ℕ → List ℕ → ℕ → Type 0
Link mem page size [] a = a ≡ 0
Link mem page size (k ∷ ks) a =
    (a ≡ page + k * size) × Link mem page size ks (mem (page + k * size))

-- The address that a pageref's free list starts with.
abbrev pub entry : Pageref → ℕ
entry pr = if pr.freelist_offset == invalid_offset then 0 else pageaddr pr + pr.freelist_offset

-- A page of blocks of `size` bytes: the blocks `free`, in the order of the free list, and `used`.
pub record IsPage (mem : ℕ → ℕ) (pr : Pageref) (size : ℕ) (free used : List ℕ) : Type 0 where
  pub kind : get_elem? sizes (blocktype_of pr) ≡ some size
  pub real : 0 < pageaddr pr
  pub top : pageaddr pr + 4096 ≤ 2 ^ 32
  pub links : Link mem (pageaddr pr) size free (entry pr)
  pub count : pr.nfree ≡ length free
  pub below : (k : ℕ) → In k (free ++ used) → k < 4096 / size
  pub distinct : Distinct (free ++ used)
  pub total : length free + length used ≡ 4096 / size

-- What is used of the sizes.
pub record IsSize (size : ℕ) : Type 0 where
  pub least : 16 ≤ size
  pub most : size ≤ 2048
  pub words : size / 4 * 4 ≡ size
  pub whole : 4096 / size * size ≡ 4096
  pub some_blocks : 2 ≤ 4096 / size
  pub few : 4096 / size ≤ 256

same_size :
    (n size : ℕ)
    → some n ≡ some size
    → (16 ≤ n)
      × (n ≤ 2048)
      × (n / 4 * 4 ≡ n)
      × (4096 / n * n ≡ 4096)
      × (2 ≤ 4096 / n)
      × (4096 / n ≤ 256)
    → IsSize size
same_size n size h (a, b, c, d, e, f) =
    subst IsSize (cc)
      (record { least = a; most = b; words = c; whole = d; some_blocks = e; few = f })

pub sizes-IsSize : (t size : ℕ) → get_elem? sizes t ≡ some size → (t < 8) × IsSize size
sizes-IsSize zero size h = (
  omega arith,
  same_size 16 size h (omega arith, omega arith, refl, refl, omega arith, omega arith),
)
sizes-IsSize (suc zero) size h = (
  omega arith,
  same_size 32 size h (omega arith, omega arith, refl, refl, omega arith, omega arith),
)
sizes-IsSize (suc (suc zero)) size h = (
  omega arith,
  same_size 64 size h (omega arith, omega arith, refl, refl, omega arith, omega arith),
)
sizes-IsSize (suc (suc (suc zero))) size h = (
  omega arith,
  same_size 128 size h (omega arith, omega arith, refl, refl, omega arith, omega arith),
)
sizes-IsSize (suc (suc (suc (suc zero)))) size h = (
  omega arith,
  same_size 256 size h (omega arith, omega arith, refl, refl, omega arith, omega arith),
)
sizes-IsSize (suc (suc (suc (suc (suc zero))))) size h = (
  omega arith,
  same_size 512 size h (omega arith, omega arith, refl, refl, omega arith, omega arith),
)
sizes-IsSize (suc (suc (suc (suc (suc (suc zero)))))) size h = (
  omega arith,
  same_size 1024 size h (omega arith, omega arith, refl, refl, omega arith, omega arith),
)
sizes-IsSize (suc (suc (suc (suc (suc (suc (suc zero))))))) size h = (
  omega arith,
  same_size 2048 size h (omega arith, omega arith, refl, refl, omega arith, omega arith),
)
sizes-IsSize (suc (suc (suc (suc (suc (suc (suc (suc t)))))))) size h = cc

module _ {size : ℕ} (s : IsSize size) where
  -- Different blocks have no byte in common, and lie within the page.
  pub block_apart : (j k : ℕ) → j < k → j * size + size ≤ k * size
  block_apart j k h =
      let e : suc j * size ≡ j * size + size = suc-mul j size in
      subst (λ n. n ≤ k * size) e (mul-le-mul_right size h)

  pub block_inside : (k : ℕ) → k < 4096 / size → k * size + size ≤ 4096
  block_inside k h = subst (λ n. k * size + size ≤ n) s.whole (block_apart k (4096 / size) h)

  pub block_aligned : (k : ℕ) → k * size % size ≡ 0
  block_aligned k = mul-mod_left k size
