-- ===== src/Response/Pending.antt =====
-- What is left to be read of a pending response.
use linux_hardware_devices_e.Prelude.{
  subst, take_all, drop_all, drop-append_self, List, ℕ, zero, suc, ◌+◌, ◌-◌, ◌≤◌, ◌≡◌, refl, ap,
  sym, ◌∙◌, Bool, true, [], ◌∷◌, ◌++◌, arith, Bytes, ltb, length, length-append, length-drop,
  length-take, length-replicate, take, drop, take-append_self, if◌then◌else◌, Bool-cases, inl, inr,
}
use linux_hardware_devices_e.Consts.{hwe_max_response}
use linux_hardware_devices_e.Response.{
  Response, zeroed, memcpy, load, discard, chunk, read_bytes, consume, is_busy, async_load,
}

abbrev pub pending : Response → Bytes
pending r = take r.resp_size (drop r.resp_ptr r.resp)

-- What is pending lies within the buffer.
pub record IsInside (r : Response) : Type 0 where
  pub size : length r.resp ≡ hwe_max_response
  pub inside : r.resp_ptr + r.resp_size ≤ hwe_max_response

pub zeroed-IsInside : IsInside zeroed
zeroed-IsInside = record {
  size = length-replicate {A = ℕ} hwe_max_response 0;
  inside = omega arith;
}

pub length-pending : (r : Response) → IsInside r → length (pending r) ≡ r.resp_size
length-pending r v = omega (
  arith,
  length-take r.resp_size (drop r.resp_ptr r.resp),
  length-drop r.resp_ptr r.resp,
  v.size,
  v.inside,
)

pub load-IsInside :
    (r : Response) (bytes : Bytes) (a : Bool)
    → IsInside r
    → length bytes ≤ hwe_max_response
    → IsInside (load r bytes a)
unfolding load memcpy
load-IsInside r bytes a v fits = record {
  size = omega (
    arith,
    length-append bytes (drop (length bytes) r.resp),
    length-drop (length bytes) r.resp,
    v.size,
  );
  inside = omega arith;
}

pub pending-load : (r : Response) (bytes : Bytes) (a : Bool) → pending (load r bytes a) ≡ bytes
unfolding load memcpy
pending-load r bytes a = take-append_self bytes (drop (length bytes) r.resp)

pub discard-IsInside : (r : Response) → IsInside r → IsInside (discard r)
discard-IsInside r v = record { size = v.size; inside = omega (arith, v.inside) }

pub consume-IsInside :
    (r : Response) (sz : ℕ) → IsInside r → sz ≤ r.resp_size → IsInside (consume r sz)
unfolding consume
consume-IsInside r sz v le = record { size = v.size; inside = omega (arith, v.inside) }

module _ {ℓ} {A : Type ℓ} where
  pub drop_nil : (n : ℕ) → drop {A = A} n [] ≡ []
  drop_nil zero = refl
  drop_nil (suc n) = refl

  pub take_nil : (n : ℕ) → take {A = A} n [] ≡ []
  take_nil zero = refl
  take_nil (suc n) = refl

  pub drop-drop : (m n : ℕ) (xs : List A) → drop (m + n) xs ≡ drop n (drop m xs)
  drop-drop zero n xs = ap (λ k. drop k xs) (omega arith)
  drop-drop (suc m) n [] = drop_nil (suc m + n) ∙ sym (drop_nil n)
  drop-drop (suc m) n (x ∷ xs) =
      let e : suc m + n ≡ suc (m + n) = omega arith in
      ap (λ k. drop k (x ∷ xs)) e ∙ drop-drop m n xs

  pub take-take-drop :
      (m n : ℕ) (xs : List A) → m ≤ n → take n xs ≡ take m xs ++ take (n - m) (drop m xs)
  take-take-drop zero n xs h = ap (λ k. take k xs) (omega arith)
  take-take-drop (suc m) zero xs h = absurd (omega (arith, h))
  take-take-drop (suc m) (suc n) [] h = sym (take_nil (suc n - suc m))
  take-take-drop (suc m) (suc n) (x ∷ xs) h =
      let e : n - m ≡ suc n - suc m = omega arith in
      ap (◌∷◌ x)
        (take-take-drop m n xs (omega (arith, h)) ∙ ap (λ k. take m xs ++ take k (drop m xs)) e)

-- Reading and consuming takes the bytes from the front of what is pending.
pub read_bytes-pending :
    (r : Response) (sz : ℕ)
    → sz ≤ r.resp_size
    → read_bytes r sz ++ pending (consume r sz) ≡ pending r
unfolding read_bytes consume
read_bytes-pending r sz le =
    ap (λ d. take sz (drop r.resp_ptr r.resp) ++ take (r.resp_size - sz) d)
      (drop-drop r.resp_ptr sz r.resp)
    ∙ sym (take-take-drop sz r.resp_size (drop r.resp_ptr r.resp) le)

pub length-read_bytes :
    (r : Response) (sz : ℕ) → IsInside r → sz ≤ r.resp_size → length (read_bytes r sz) ≡ sz
unfolding read_bytes
length-read_bytes r sz v le = omega (
  arith,
  length-take sz (drop r.resp_ptr r.resp),
  length-drop r.resp_ptr r.resp,
  v.size,
  v.inside,
)

pub chunk-le : (r : Response) (len : ℕ) → chunk r len ≤ r.resp_size
chunk-le r len = ground arith

take-length {ℓ} : {A : Type ℓ} (n : ℕ) (xs ys : List A) → length xs ≡ n → take n (xs ++ ys) ≡ xs
take-length n xs ys e = subst (λ k. take k (xs ++ ys) ≡ xs) e (take-append_self xs ys)

drop-length {ℓ} : {A : Type ℓ} (n : ℕ) (xs ys : List A) → length xs ≡ n → drop n (xs ++ ys) ≡ ys
drop-length n xs ys e = subst (λ k. drop k (xs ++ ys) ≡ ys) e (drop-append_self xs ys)

-- A read of `len` bytes takes the first `len` bytes of what is pending, or all of it.
pub read_bytes-chunk :
    (r : Response) (len : ℕ) → IsInside r → read_bytes r (chunk r len) ≡ take len (pending r)
unfolding read_bytes
read_bytes-chunk r len v = elim (Bool-cases (ltb len r.resp_size)) [
  | inl t ↦
      (let e : chunk r len ≡ len = ground arith in
        let le : len ≤ r.resp_size = ground arith in
        ap (read_bytes r) e
        ∙ sym (
            take-length len (read_bytes r len) (pending (consume r len))
              (length-read_bytes r len v le))
        ∙ ap (take len) (read_bytes-pending r len le))
  | inr f ↦
      (let e : chunk r len ≡ r.resp_size = ground arith in
        let ge : r.resp_size ≤ len = ground arith in
        let le : length (pending r) ≤ len = omega (arith, length-pending r v, ge) in
        ap (read_bytes r) e ∙ sym (take_all len (pending r) le))
]

-- It leaves the rest.
pub pending-chunk :
    (r : Response) (len : ℕ) → IsInside r → pending (consume r (chunk r len)) ≡ drop len (pending r)
unfolding consume
pending-chunk r len v = elim (Bool-cases (ltb len r.resp_size)) [
  | inl t ↦
      (let e : chunk r len ≡ len = ground arith in
        let le : len ≤ r.resp_size = ground arith in
        ap (λ n. pending (consume r n)) e
        ∙ sym (
            drop-length len (read_bytes r len) (pending (consume r len))
              (length-read_bytes r len v le))
        ∙ ap (drop len) (read_bytes-pending r len le))
  | inr f ↦
      (let e : chunk r len ≡ r.resp_size = ground arith in
        let ge : r.resp_size ≤ len = ground arith in
        let le : length (pending r) ≤ len = omega (arith, length-pending r v, ge) in
        let z : r.resp_size - r.resp_size ≡ 0 = omega arith in
        ap (λ n. pending (consume r n)) e
        ∙ ap (λ n. take n (drop (r.resp_ptr + r.resp_size) r.resp)) z
        ∙ sym (drop_all len (pending r) le))
]

-- An asynchronous response replaces what is pending exactly if the test lets it.
pub async_load-IsInside :
    (r : Response) (bytes : Bytes)
    → IsInside r
    → length bytes ≤ hwe_max_response
    → IsInside (async_load r bytes)
unfolding async_load
async_load-IsInside r bytes v fits = elim (Bool-cases (is_busy r)) [
  | inl t ↦ subst (λ b. IsInside (if b then r else load r bytes true)) (sym t) v
  | inr f ↦
      subst (λ b. IsInside (if b then r else load r bytes true)) (sym f)
        (load-IsInside r bytes true v fits)
]

pub pending-async_load :
    (r : Response) (bytes : Bytes)
    → pending (async_load r bytes) ≡ (if is_busy r then pending r else bytes)
unfolding async_load
pending-async_load r bytes = elim (Bool-cases (is_busy r)) [
  | inl t ↦
      ap (λ b. pending (if b then r else load r bytes true)) t
      ∙ sym (ap (λ b. if b then pending r else bytes) t)
  | inr f ↦
      ap (λ b. pending (if b then r else load r bytes true)) f
      ∙ pending-load r bytes true
      ∙ sym (ap (λ b. if b then pending r else bytes) f)
]
