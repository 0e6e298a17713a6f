-- ===== src/Database/Ids.antt =====
-- Identifiers and dates of backend/src/database/schema.ts. A UUID is the number that it writes in
-- hexadecimal, which is also how PostgreSQL orders it; a date is its milliseconds.
use ufsc_dso2_trabalho1_merc.Prelude.{ℕ}

abbrev pub Uuid : Type 0
Uuid = ℕ

abbrev pub Date : Type 0
Date = ℕ
