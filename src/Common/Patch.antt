-- ===== src/Common/Patch.antt =====
-- Partial updates: the fields that a request sets (`model_dump(exclude_unset=True)`).
-- A field of a partial update: unset, or a new value (an explicit null for a column that has none
-- fails in the database, and is left out).
pub data Patch (A : Type 0) : Type 0 where
  unset : Patch A
  assign : A → Patch A

abbrev pub patched : {A : Type 0} → Patch A → A → A
patched unset old = old
patched (assign v) old = v
