-- ===== src/Store/Redis/Exact.antt =====
-- The doubles of the scripts in src/store/redis_store.rs, as far as they count exactly.
use budget_warden.Base.{
  ℕ, ◌+◌, ◌-◌, ◌≤◌, ◌<◌, ◌≡◌, arith, ltb, ap, ◌∙◌, ltb-false, false, pos, Bool-cases, leb, leb→le,
  inl, inr,
}
use budget_warden.Store.Redis.{Field, digits, value, Lua}
use budget_warden.Store.Redis.Ends.{lowered}

-- 2^53: up to it every whole number is a double.
abbrev pub exact_max : ℕ
exact_max = 9_007_199_254_740_992

-- What a double is to the scripts: whole numbers up to 2^53 are given exactly, written with their
-- digits and answered as they are, and a greater number is not given by a smaller double.
pub record IsDouble (lua : Lua) : Type 0 where
  pub exact : (n : ℕ) → n ≤ exact_max → lua.number n ≡ n
  pub monotone : (n m : ℕ) → n ≤ m → lua.number n ≤ lua.number m
  pub written : (n : ℕ) → n ≤ exact_max → lua.text n ≡ digits n
  pub answered : (n : ℕ) → n ≤ exact_max → lua.reply n ≡ pos n

module _ (lua : Lua) (double : IsDouble lua) where
  past : (limit n : ℕ) → limit < exact_max → exact_max ≤ n → lua.number limit < lua.number n
  past limit n small large = omega (
    arith,
    double.exact limit (omega arith),
    double.exact exact_max (omega arith),
    double.monotone exact_max n large,
  )

  -- The comparison with a limit below 2^53 is exact: what it lets pass fits.
  pub comparison_exact :
      (limit used amount : ℕ)
      → limit < exact_max
      → ltb (lua.number limit) (lua.number (used + lua.number amount)) ≡ false
      → used + amount ≤ limit
  comparison_exact limit used amount small passes = elim (Bool-cases (leb amount exact_max)) [
    | inl fits ↦
        let e = double.exact amount (leb→le _ _ fits) in
        elim (Bool-cases (leb (used + amount) exact_max)) [
          | inl whole ↦ omega (
            arith,
            e,
            double.exact limit (omega arith),
            ltb-false _ _ passes,
            double.monotone (used + amount) (used + lua.number amount) (omega (arith, e)),
            double.exact (used + amount) (leb→le _ _ whole),
          )
          | inr over ↦ omega (
            arith,
            ltb-false _ _ passes,
            past limit (used + lua.number amount) small (ground (arith, e)),
          )
        ]
    | inr large ↦ omega (
      arith,
      ltb-false _ _ passes,
      past limit (used + lua.number amount) small (
          omega (
            arith,
            double.exact exact_max (omega arith),
            double.monotone exact_max amount (ground arith),
          )),
    )
  ]

  -- And it lets pass what fits.
  pub comparison_passes :
      (limit used amount : ℕ)
      → limit < exact_max
      → used + amount ≤ limit
      → ltb (lua.number limit) (lua.number (used + lua.number amount)) ≡ false
  comparison_passes limit used amount small fits =
      rw
        (
          double.exact limit (omega arith),
          double.exact amount (omega arith),
          double.exact (used + amount) (omega arith),
        )
        (ground arith)

  pub reply-exact : (n : ℕ) → n ≤ exact_max → lua.reply (lua.number n) ≡ pos n
  reply-exact n h = ap lua.reply (double.exact n h) ∙ double.answered n h

  -- What a release writes.
  pub lowered-exact :
      (h a : ℕ) (f : Field)
      → h ≤ exact_max
      → value f ≤ exact_max
      → a ≡ value f
      → lowered lua (digits h) f ≡ digits (h - a)
  lowered-exact h a f small fits e =
      let p : lua.number (lua.number h - lua.number (value f)) ≡ h - a =
        rw (double.exact h small, double.exact (value f) fits, e)
          (double.exact (h - value f) (omega arith)) in
      ap lua.text p ∙ double.written (h - a) (omega arith)
