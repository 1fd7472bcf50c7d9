-- ===== src/Base/Rotation.antt =====
-- Positions on a circle of n places: offsets from a cursor, modulo n.
use Prim.Native.Nat.{ℕ, ◌+◌, ◌-◌, ◌%◌, ◌<◌, ◌≤◌}
use mathlib.Core.Path.{◌≡◌, sym, ◌∙◌, ap}
use native.Mathlib.Decide.{dec_le, dec_lt}
use native.Mathlib.Nat.{mod-add-mod, mod-eq_of_lt, mod-lt, add-mod_right}
use native.Mathlib.Omega.{arith}

-- Every place is an offset below n from the cursor.
pub offset_of : (n c i : ℕ) → i < n → (j : ℕ) × (j < n) × ((c + j) % n ≡ i)
offset_of n c i h =
    let low : c % n < n = mod-lt c (omega arith) in
    elim (dec_le (c % n) i) [
      | yes le ↦ (
        i - c % n,
        omega arith,
        sym (mod-add-mod c n (i - c % n)) ∙ ap (λ x. x % n) (omega arith) ∙ mod-eq_of_lt {n = i} h,
      )
      | no gt ↦ (
        i + n - c % n,
        omega arith,
        sym (mod-add-mod c n (i + n - c % n))
            ∙ ap (λ x. x % n) (omega arith)
            ∙ add-mod_right i n
            ∙ mod-eq_of_lt {n = i} h,
      )
    ]

-- A place that lies d behind the cursor lies d - k - 1 behind the place after the offset k.
pub offset_after : (n c k e : ℕ) → (((c + k) % n + 1) % n + e) % n ≡ (c + (k + 1 + e)) % n
offset_after n c k e =
    mod-add-mod ((c + k) % n + 1) n e
    ∙ ap (λ x. x % n) (omega arith)
    ∙ mod-add-mod (c + k) n (1 + e)
    ∙ ap (λ x. x % n) (omega arith)

-- Where m places join at the end of the circle, a place stays at most m offsets further from a cursor
-- on it.
pub offset_joined :
    (n m c d : ℕ)
    → c < n
    → d < n
    → (e : ℕ) × (e ≤ d + m) × (e < n + m) × ((c + e) % (n + m) ≡ (c + d) % n)
offset_joined n m c d inside lt = elim (dec_lt (c + d) n) [
  | yes before ↦
      (d, omega arith, omega arith, mod-eq_of_lt (omega arith) ∙ sym (mod-eq_of_lt before))
  | no behind ↦
      let r = c + d - n in
      (
        d + m,
        omega arith,
        omega arith,
        ap (λ x. x % (n + m)) (omega arith)
            ∙ add-mod_right r (n + m)
            ∙ mod-eq_of_lt {n = r} (omega arith)
            ∙ sym (mod-eq_of_lt {n = r} (omega arith))
            ∙ sym (add-mod_right r n)
            ∙ ap (λ x. x % n) (omega arith),
      )
]
