-- ===== src/Materialize/Pages.antt =====
-- The RAM that scripts/materialize_dedup_proof.py expects, page by page.
use mathlib.Core.List.{append_assoc}
use nether.Prelude.{
  ℕ, zero, suc, ◌+◌, ◌-◌, ◌*◌, ◌%◌, ◌≤◌, ◌<◌, ◌≡◌, refl, ap, ◌∙◌, ◌&&◌, [], ◌∷◌, ◌++◌, ◌==◌, ltb,
  leb, arith, if◌then◌else◌, length, take, drop, replicate,
}
use nether.Os.{Bytes}
use nether.Materialize.{Sizes, put_page, filled, overlaid, base_ram, want}

module _ (page : ℕ) where
  -- `n` pages from `k` on, where page j is filled with f j.
  unfoldable pub pages : (ℕ → ℕ) → ℕ → ℕ → Bytes
  pages f k zero = []
  pages f k (suc n) = replicate page (f k) ++ pages f (k + 1) n

  pub pages-ext :
      (f g : ℕ → ℕ) (k n : ℕ)
      → ((j : ℕ) → k ≤ j → j < k + n → f j ≡ g j)
      → pages f k n ≡ pages g k n
  unfolding pages
  pages-ext f g k zero h = refl
  pages-ext f g k (suc n) h = rw (h k (omega arith) (omega arith)) (
      ap (λ t. replicate page (g k) ++ t)
        (pages-ext f g (k + 1) n (λ j a b. h j (omega (arith, a)) (omega (arith, b)))))

pub length-replicate : (n v : ℕ) → length (replicate n v) ≡ n
length-replicate zero v = refl
length-replicate (suc n) v = ap suc (length-replicate n v)

pub take-append : (xs ys : Bytes) (m : ℕ) → take (length xs + m) (xs ++ ys) ≡ xs ++ take m ys
take-append [] ys m = let e : 0 + m ≡ m = omega arith in rw e refl
take-append (x ∷ xs) ys m =
    let e : suc (length xs) + m ≡ suc (length xs + m) = omega arith in
    rw e (ap (λ t. x ∷ t) (take-append xs ys m))

pub drop-append : (xs ys : Bytes) (m : ℕ) → drop (length xs + m) (xs ++ ys) ≡ drop m ys
drop-append [] ys m = let e : 0 + m ≡ m = omega arith in rw e refl
drop-append (x ∷ xs) ys m =
    let e : suc (length xs) + m ≡ suc (length xs + m) = omega arith in rw e (drop-append xs ys m)

replicate-append : (m n v : ℕ) → replicate (m + n) v ≡ replicate m v ++ replicate n v
replicate-append zero n v = let e : 0 + n ≡ n = omega arith in rw e refl
replicate-append (suc m) n v =
    let e : suc m + n ≡ suc (m + n) = omega arith in rw e (ap (λ t. v ∷ t) (replicate-append m n v))

-- f with the value v at k
abbrev pub update : (ℕ → ℕ) → ℕ → ℕ → ℕ → ℕ
update f k v j = if j == k then v else f j

module _ (page : ℕ) where
  take-page :
      (x m : ℕ) (rest : Bytes)
      → take (page + m) (replicate page x ++ rest) ≡ replicate page x ++ take m rest
  take-page x m rest = rw (length-replicate page x) at (take-append (replicate page x) rest m)

  drop-page : (x m : ℕ) (rest : Bytes) → drop (page + m) (replicate page x ++ rest) ≡ drop m rest
  drop-page x m rest = rw (length-replicate page x) at (drop-append (replicate page x) rest m)

  put_page-zero :
      (v x : ℕ) (rest : Bytes)
      → put_page page 0 v (replicate page x ++ rest) ≡ replicate page v ++ rest
  unfolding put_page
  put_page-zero v x rest =
      let e : 0 * page ≡ 0 = grind arith in
      let f : (0 + 1) * page ≡ page + 0 = grind arith in
      rw (e, f) (ap (λ t. replicate page v ++ t) (drop-page x 0 rest))

  put_page-suc :
      (k v x : ℕ) (rest : Bytes)
      → put_page page (suc k) v (replicate page x ++ rest)
        ≡ replicate page x ++ put_page page k v rest
  unfolding put_page
  put_page-suc k v x rest =
      let e : suc k * page ≡ page + k * page = grind arith in
      let f : (suc k + 1) * page ≡ page + (k + 1) * page = grind arith in
      rw (e, f)
        (rw (take-page x (k * page) rest, drop-page x ((k + 1) * page) rest)
          (append_assoc (replicate page x) (take (k * page) rest) _))

  -- A page of the pages is replaced.
  put_page-pages :
      (f : ℕ → ℕ) (k v a n : ℕ)
      → k < n
      → put_page page k v (pages page f a n) ≡ pages page (update f (a + k) v) a n
  unfolding pages
  put_page-pages f k v a zero h = absurd (omega arith)
  put_page-pages f zero v a (suc n) h =
      put_page-zero v (f a) (pages page f (a + 1) n)
      ∙ ap (λ t. replicate page v ++ t)
          (pages-ext page f (update f a v) (a + 1) n (λ j lo hi. ground arith))
      ∙ at_start a
    where
      at_start :
          (b : ℕ)
          → replicate page v ++ pages page (update f b v) (b + 1) n
            ≡ pages page (update f (b + 0) v) b (suc n)
      at_start b =
          let e : b ≡ b + 0 = omega arith in
          let s : v ≡ update f b v b = ground arith in
          ap (λ u. replicate page u ++ pages page (update f b v) (b + 1) n) s
          ∙ ap (λ c. pages page (update f c v) b (suc n)) e
  put_page-pages f (suc k) v a (suc n) h =
      put_page-suc k v (f a) (pages page f (a + 1) n)
      ∙ ap (λ t. replicate page (f a) ++ t) (put_page-pages f k v (a + 1) n (omega (arith, h)))
      ∙ later
    where
      later :
          replicate page (f a) ++ pages page (update f (a + 1 + k) v) (a + 1) n
          ≡ pages page (update f (a + suc k) v) a (suc n)
      later =
          let e : a + 1 + k ≡ a + suc k = omega arith in
          let s : f a ≡ update f (a + 1 + k) v a = ground arith in
          ap (λ u. replicate page u ++ pages page (update f (a + 1 + k) v) (a + 1) n) s
          ∙ ap (λ c. pages page (update f c v) a (suc n)) e

  replicate-pages : (a n : ℕ) → replicate (n * page) 0 ≡ pages page (λ _. 0) a n
  unfolding pages
  replicate-pages a zero = let e : 0 * page ≡ 0 = grind arith in rw e refl
  replicate-pages a (suc n) =
      let e : suc n * page ≡ page + n * page = grind arith in
      rw e (
        replicate-append page (n * page) 0
        ∙ ap (λ t. replicate page 0 ++ t) (replicate-pages (a + 1) n))

  -- The loop that fills n pages from k on, of N pages.
  filled-pages :
      (f : ℕ → ℕ) (k n total : ℕ)
      → k + n ≤ total
      → filled page k n (pages page f 0 total)
        ≡ pages page (λ j. if leb k j && ltb j (k + n) then j % 256 else f j) 0 total
  unfolding filled
  filled-pages f k zero total h = pages-ext page f _ 0 total (λ j lo hi. ground arith)
  filled-pages f k (suc n) total h = rw (put_page-pages f k (k % 256) 0 total (omega arith)) (
      filled-pages (update f (0 + k) (k % 256)) (k + 1) n total (omega arith)
      ∙ pages-ext page _ _ 0 total (λ j lo hi. ground arith))

  -- The base's pages, and the child's: page k is filled with k, but for the pages that changed.
  base_ram-pages :
      (moff npages : ℕ)
      → base_ram (record { page = page; moff = moff; npages = npages })
        ≡ pages page (λ j. j % 256) 0 npages
  unfolding base_ram
  base_ram-pages moff npages = rw (replicate-pages 0 npages) (
      filled-pages (λ _. 0) 0 npages npages (omega arith)
      ∙ pages-ext page _ _ 0 npages (λ j lo hi. ground arith))

-- Page k of the child.
unfoldable pub child_page : ℕ → ℕ → ℕ
child_page npages k =
    if k == npages - 1 then 0xa3 else if k == 100 then 0xa2 else if k == 0 then 0xa1 else k % 256

-- For more than 101 pages, the RAM that is wanted is that of the child, page by page.
pub want-pages :
    (S : Sizes) → 101 < S.npages → want S ≡ pages S.page (child_page S.npages) 0 S.npages
unfolding want overlaid child_page
want-pages S h =
    let n = S.npages in
    let f : ℕ → ℕ = λ j. j % 256 in
    rw
      (
        base_ram-pages S.page S.moff S.npages,
        put_page-pages S.page f 0 0xa1 0 S.npages (omega (arith, h)),
        put_page-pages S.page (update f 0 0xa1) 100 0xa2 0 S.npages (omega (arith, h)),
        put_page-pages S.page (update (update f 0 0xa1) 100 0xa2) (S.npages - 1) 0xa3 0 S.npages
            (omega (arith, h)),
      )
      (pages-ext S.page _ _ 0 S.npages (λ j lo hi. ground arith))
