-- ===== src/Protocol/Safety.antt =====
-- Which readers are safe: they do not read past the end of a buffer of a given length.
pub mod Primitives
pub mod Requests
pub mod Produce
pub mod Dispatch
use sevlamq.Prelude.{
  Bool, Bool-cases, [], arith, false, if◌then◌else◌, inl, inr, length, ltb, refl, some, suc, true,
  zero, ℕ, ◌*◌, ◌+◌, ◌-◌, ◌∷◌, ◌≡◌, ◌≢◌, ◌≤◌,
}
use sevlamq.Protocol.Types.{Bytes}
use sevlamq.Protocol.Result.{ProtocolError, Result, bind, err, ok, panic}
use sevlamq.Protocol.Reader.{
  Reader, ensure_remaining, get_be, get_uint, lift, pure, push_byte, raise, ◌>>=◌, ◌>>◌,
}

-- On a buffer of at least `k` bytes the reader does not panic.
pub record Safe (k : ℕ) {A : Type 0} (m : Reader A) : Type 0 where
  pub run : (buffer : Bytes) → k ≤ length buffer → m buffer ≢ panic

-- A number of `w` bytes is there, and what is left is shorter by `w`.
pub get_be_total :
    (w : ℕ) (buffer : Bytes)
    → w ≤ length buffer
    → (n : ℕ) × (rest : Bytes) × (get_be w buffer ≡ some (n, rest))
      × (length rest + w ≡ length buffer)
unfolding get_be
get_be_total zero buffer h = (0, buffer, refl, omega arith)
get_be_total (suc w) buffer h =
    let (n, rest, e, l) = get_be_total w buffer (omega arith) in next n rest e l
  where
    next :
        (n : ℕ) (rest : Bytes)
        → get_be w buffer ≡ some (n, rest)
        → length rest + w ≡ length buffer
        → (m : ℕ) × (left : Bytes) × (push_byte (get_be w buffer) ≡ some (m, left))
          × (length left + suc w ≡ length buffer)
    next n [] e l = absurd (omega arith)
    next n (b ∷ left) e l = (n * 256 + b, left, rw e, omega arith)

module _ {A : Type 0} where
  pub Safe-pure : (k : ℕ) (a : A) → Safe k (pure a)
  Safe-pure k a = record { run = λ buffer h e. cc }

  pub Safe-raise : (k : ℕ) (error : ProtocolError) → Safe k (raise {A = A} error)
  Safe-raise k error = record { run = λ buffer h e. cc }

  pub Safe-lift : (k : ℕ) (r : Result A) → r ≢ panic → Safe k (lift r)
  Safe-lift k (ok a) p = record { run = λ buffer h e. cc }
  Safe-lift k (err error) p = record { run = λ buffer h e. cc }
  Safe-lift k panic p = absurd (p refl)

  pub Safe-if :
      (k : ℕ) (b : Bool) (m n : Reader A) → Safe k m → Safe k n → Safe k (if b then m else n)
  Safe-if k true m n s t = s
  Safe-if k false m n s t = t

  pub Safe-weaken : (j k : ℕ) (m : Reader A) → j ≤ k → Safe j m → Safe k m
  Safe-weaken j k m h s = record { run = λ buffer l. s.run buffer (omega arith) }

module _ {A B : Type 0} where
  pub Safe-bind :
      (k : ℕ) (m : Reader A) (f : A → Reader B)
      → Safe k m
      → ((a : A) → Safe 0 (f a))
      → Safe k (m >>= f)
  Safe-bind k m f s t = record { run = λ buffer h. go buffer (m buffer) (s.run buffer h) }
    where
      go :
          (buffer : Bytes) (r : Result (A × Bytes))
          → r ≢ panic
          → bind r (λ (a, rest). f a rest) ≢ panic
      go buffer (ok (a, rest)) p = (t a).run rest (omega arith)
      go buffer (err error) p = λ e. cc
      go buffer panic p = absurd (p refl)

module _ {B : Type 0} where
  pub Safe-get :
      (w k : ℕ) (f : ℕ → Reader B)
      → w ≤ k
      → ((n : ℕ) → Safe (k - w) (f n))
      → Safe k (get_uint w >>= f)
  unfolding get_uint
  Safe-get w k f h t = record {
    run = λ buffer l. go buffer l (get_be_total w buffer (omega arith));
  }
    where
      go :
          (buffer : Bytes)
          → k ≤ length buffer
          → (n : ℕ) × (rest : Bytes) × (get_be w buffer ≡ some (n, rest))
            × (length rest + w ≡ length buffer)
          → (get_uint w >>= f) buffer ≢ panic
      go buffer l (n, rest, e, r) = rw e ((t n).run rest (omega arith))

  pub Safe-ensure : (n k : ℕ) (m : Reader B) → Safe n m → Safe k (ensure_remaining n >> m)
  unfolding ensure_remaining
  Safe-ensure n k m s = record {
    run = λ buffer l. elim (Bool-cases (ltb (length buffer) n)) [
      | inl e ↦ rw e (λ p. cc)
      | inr e ↦ rw e (s.run buffer (ground arith))
    ];
  }

pub Safe-get_last : (w k : ℕ) → w ≤ k → Safe k (get_uint w)
unfolding get_uint
Safe-get_last w k h = record { run = λ buffer l. go buffer (get_be_total w buffer (omega arith)) }
  where
    go :
        (buffer : Bytes)
        → (n : ℕ) × (rest : Bytes) × (get_be w buffer ≡ some (n, rest))
          × (length rest + w ≡ length buffer)
        → get_uint w buffer ≢ panic
    go buffer (n, rest, e, r) = rw e (λ p. cc)

module _ {A B : Type 0} where
  -- A check reads nothing, so what is left is as long as before.
  pub Safe-check :
      (k : ℕ) (r : Result A) (f : A → Reader B)
      → r ≢ panic
      → ((a : A) → Safe k (f a))
      → Safe k (lift r >>= f)
  Safe-check k (ok a) f p t = record { run = (t a).run }
  Safe-check k (err error) f p t = record { run = λ buffer h e. cc }
  Safe-check k panic f p t = absurd (p refl)
