-- ===== src/Storage/RunSequence/RunId.antt =====
-- data/storage.py: a run id determines its sequence number.
use nipxi.Prelude.{
  ℕ, zero, suc, ◌+◌, ◌-◌, ◌*◌, ◌/◌, ◌%◌, ◌<◌, ◌≡◌, ◌∙◌, sym, ap, refl, [], ◌∷◌, ◌++◌, length, arith,
}
use nipxi.Prelude.Text.{Text}
use nipxi.Storage.RunSequence.{digit, decimal, zeros, padded, run_id_of}

-- The number that a text of digits stands for, behind the one read so far.
abbrev value : ℕ → Text → ℕ
value acc [] = acc
value acc (c ∷ cs) = value (acc * 10 + (c - 48)) cs

value-snoc : (acc : ℕ) (cs : Text) (c : ℕ) → value acc (cs ++ c ∷ []) ≡ value acc cs * 10 + (c - 48)
value-snoc acc [] c = refl
value-snoc acc (d ∷ cs) c = value-snoc (acc * 10 + (d - 48)) cs c

value-append : (acc : ℕ) (cs ds : Text) → value acc (cs ++ ds) ≡ value (value acc cs) ds
value-append acc [] ds = refl
value-append acc (c ∷ cs) ds = value-append (acc * 10 + (c - 48)) cs ds

value-zeros : (n : ℕ) → value 0 (zeros n) ≡ 0
unfolding zeros
value-zeros zero = refl
value-zeros (suc n) = value-zeros n

value-decimal : (fuel n : ℕ) → n < fuel → value 0 (decimal fuel n) ≡ n
unfolding decimal
value-decimal zero n h = ground arith
value-decimal (suc fuel) n h =
    ground
      (arith, value-decimal fuel (n / 10), value-snoc 0 (decimal fuel (n / 10)) (digit (n % 10)))

value-padded : (n : ℕ) → value 0 (padded n) ≡ n
unfolding padded
value-padded n =
    let digits = decimal (suc n) n in
    value-append 0 (zeros (8 - length digits)) digits
    ∙ ap (λ acc. value acc digits) (value-zeros (8 - length digits))
    ∙ value-decimal (suc n) n (omega arith)

++-cancel : (xs ys zs : Text) → xs ++ ys ≡ xs ++ zs → ys ≡ zs
++-cancel [] ys zs e = e
++-cancel (x ∷ xs) ys zs e = ++-cancel xs ys zs (ground (arith, e))

-- Different sequence numbers of a station have different run ids.
pub run_id_of-injective :
    (station_id : Text) (m n : ℕ) → run_id_of station_id m ≡ run_id_of station_id n → m ≡ n
unfolding run_id_of
run_id_of-injective station_id m n e =
    let same = ++-cancel station_id (45 ∷ padded m) (45 ∷ padded n) e in
    sym (value-padded m)
    ∙ ap (value 0) {x = padded m} {y = padded n} (ground (arith, same))
    ∙ value-padded n
