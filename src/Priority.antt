-- ===== src/Priority.antt =====
-- src/priority.rs: the priorities of a request, in their derived order.
use budget_warden.Base.{ℕ, Bool, ltb}

pub data Priority : Type 0 where
  background normal important critical : Priority

-- The position in the declaration, by which the derived `Ord` compares.
abbrev pub rank : Priority → ℕ
rank background = 0
rank normal = 1
rank important = 2
rank critical = 3

-- `a < b`
abbrev pub lower : Priority → Priority → Bool
lower a b = ltb (rank a) (rank b)
