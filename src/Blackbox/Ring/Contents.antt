-- ===== src/Blackbox/Ring/Contents.antt =====
-- What a ring buffer holds, oldest first, and how `Add`, `All`, `Latest` and `Clear` act on it.
use native.Mathlib.Numerals.{add-one}
use k8s_gpu_mcp_server.Base.{
  ℕ, suc, ◌+◌, ◌-◌, ◌≤◌, ◌<◌, ◌≡◌, sym, ◌∙◌, true, false, arith, List, [], ◌∷◌, ◌++◌, append-nil,
  append_assoc, length, set, take, drop, replicate, length-set, length-replicate, length-take,
  length-drop, length-append, take_all, drop_all, take-append_self, drop-append_self, take-set,
  drop-set, drop-cons, if◌then◌else◌, inl, inr, min,
}
use k8s_gpu_mcp_server.Blackbox.Ring.{RingBuffer, add, items, copy, ordered}
use k8s_gpu_mcp_server.Blackbox.Ring.Bounds.{IsValid, step_head}

-- Of a wrapped buffer, the part from `head` on comes before the part below it.
unfoldable pub contents {ℓ} : {A : Type ℓ} → RingBuffer A → List A
contents r = if r.full then drop r.head r.buf ++ take r.head r.buf else take r.size r.buf

-- The last `n` elements.
abbrev pub keep_last {ℓ} : {A : Type ℓ} → ℕ → List A → List A
keep_last n xs = drop (length xs - n) xs

pub length-contents {ℓ} : {A : Type ℓ} (r : RingBuffer A) → IsValid r → length (contents r) ≡ r.size
unfolding contents
length-contents r v = ground (
  arith,
  length-append (drop r.head r.buf) (take r.head r.buf),
  length-drop r.head r.buf,
  length-take r.head r.buf,
  length-take r.size r.buf,
)

module _ {ℓ} {A : Type ℓ} (b : List A) (i : ℕ) (x : A) where
  -- A write at the head of a wrapped buffer, seen from the next head.
  rotate-set :
      i < length b
      → drop (i + 1) (set b i x) ++ take (i + 1) (set b i x)
        ≡ drop 1 ((drop i b ++ take i b) ++ x ∷ [])
  rotate-set lt = rw (add-one, drop-set b i x, take-set b i x lt, drop-cons b i x lt, append_assoc)

  set-last : i + 1 ≡ length b → set b i x ≡ take i b ++ x ∷ []
  set-last e =
      sym (take_all (suc i) (set b i x) (omega (arith, length-set b i x)))
      ∙ take-set b i x (omega arith)

  rotate-set_last : i + 1 ≡ length b → set b i x ++ [] ≡ drop 1 ((drop i b ++ take i b) ++ x ∷ [])
  rotate-set_last e =
      rw (append-nil, set-last e, drop-cons b i x (omega arith), drop_all (suc i) b (omega arith))

  take-set_next : i < length b → take (i + 1) (set b i x) ≡ take i b ++ x ∷ []
  take-set_next lt = rw add-one (take-set b i x lt)

-- `Add` appends the item, and drops the oldest one if the buffer was full.
pub contents-add_full {ℓ} :
    {A : Type ℓ} (x : A) (r : RingBuffer A)
    → IsValid r
    → r.full ≡ true
    → contents (add x r) ≡ drop 1 (contents r ++ x ∷ [])
unfolding contents add
contents-add_full x r v f = elim (step_head r.head r.capacity v.head_in) [
  | inl (e, lt) ↦ rw (f, e) (rotate-set r.buf r.head x (omega arith))
  | inr (e, q) ↦ rw (f, e) (rotate-set_last r.buf r.head x (omega arith))
]

pub contents-add_filling :
    {A : Type 0} (x : A) (r : RingBuffer A)
    → IsValid r
    → r.full ≡ false
    → contents (add x r) ≡ contents r ++ x ∷ []
unfolding contents add
contents-add_filling x r v f = ground (
  arith,
  step_head r.head r.capacity v.head_in,
  set-last r.buf r.head x,
  take-set_next r.buf r.head x,
  append-nil (set r.buf r.head x),
)

-- `copy` onto a destination of the source's length.
pub copy_whole {ℓ} : {A : Type ℓ} (dst src : List A) → length src ≡ length dst → copy dst src ≡ src
copy_whole dst src e =
    rw
      (take_all (length dst) src (omega arith), drop_all (length src) dst (omega arith), append-nil)

module _ {ℓ} {A : Type ℓ} where
  copy_front :
      (dst src : List A) → length src ≤ length dst → copy dst src ≡ src ++ drop (length src) dst
  copy_front dst src le = rw (take_all (length dst) src le)

  -- The two copies of `All` and `Query`, for a buffer that has wrapped.
  copy_twice :
      (dst a b : List A)
      → length a + length b ≡ length dst
      → let n = min (length dst) (length a) in
        take n (copy dst a) ++ copy (drop n (copy dst a)) b ≡ a ++ b
  copy_twice dst a b e =
      let n : min (length dst) (length a) ≡ length a = omega arith in
      let rest : length b ≡ length (drop (length a) dst) =
        omega (arith, length-drop (length a) dst) in
      rw (
        n,
        copy_front dst a (omega arith),
        take-append_self a (drop (length a) dst),
        drop-append_self a (drop (length a) dst),
        copy_whole (drop (length a) dst) b rest,
      )

module _ {A : Type 0} (z : A) (r : RingBuffer A) (v : IsValid r) where
  wrap_whole :
      r.full ≡ true
      → let result = replicate r.size z in
        let tail = drop r.head r.buf in
        let n = min (length result) (length tail) in
        take n (copy result tail) ++ copy (drop n (copy result tail)) (take r.head r.buf)
        ≡ drop r.head r.buf ++ take r.head r.buf
  wrap_whole f = copy_twice (replicate r.size z) (drop r.head r.buf) (take r.head r.buf) (
      omega (
        arith,
        v,
        v.wrapped_full f,
        length-drop r.head r.buf,
        length-take r.head r.buf,
        length-replicate r.size z,
      ))

  front_whole : copy (replicate r.size z) (take r.size r.buf) ≡ take r.size r.buf
  front_whole =
      copy_whole _ _ (omega (arith, v, length-take r.size r.buf, length-replicate r.size z))

  -- `All` returns the contents, and so does the copy that `Query` works on.
  pub items-eq-contents : items z r ≡ contents r
  unfolding items contents
  items-eq-contents = ground (arith, v, wrap_whole, front_whole)

  pub ordered-eq-contents : ordered z r ≡ contents r
  unfolding ordered contents
  ordered-eq-contents = ground (arith, v, wrap_whole)
