-- ===== src/ProductStatus.antt =====
-- backend/src/productStatus.ts.
use ufsc_dso2_trabalho1_merc.Prelude.{Bool, true, false}

pub data ProductStatus : Type 0 where
  draft active paused sold_out archived : ProductStatus

-- `===` on the status strings.
abbrev pub same_status : ProductStatus → ProductStatus → Bool
same_status draft draft = true
same_status active active = true
same_status paused paused = true
same_status sold_out sold_out = true
same_status archived archived = true
same_status _ _ = false
