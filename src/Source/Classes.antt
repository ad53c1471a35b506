-- ===== src/Source/Classes.antt =====
-- What every class of a source file promises.
use hakutaku.Prelude.{ℕ, ◌≤◌, ◌<◌, ◌≡◌, arith}
use hakutaku.Format.Enums.{fixed, content_defined, hot}
use hakutaku.Format.Constants.{max_block_plain_len}
use hakutaku.Source.{
  SourceFile, SourceClass, classify, hot_block_len, hot_file_limit, content_defined_limit,
}

-- A fixed layout has blocks that are not empty and fit a page of the format; a content-defined one has
-- no block length, and lies between the limits; a hot file is small, and one block holds it.
pub record IsClass (len : ℕ) (c : SourceClass) : Type 0 where
  pub block_positive : c.layout ≡ fixed → 0 < c.fixed_block_len
  pub block_max : c.layout ≡ fixed → c.fixed_block_len ≤ max_block_plain_len
  pub no_block : c.layout ≡ content_defined → c.fixed_block_len ≡ 0
  pub content_min : c.layout ≡ content_defined → hot_file_limit < len
  pub content_max : c.layout ≡ content_defined → len ≤ content_defined_limit
  pub hot_fixed : c.access ≡ hot → c.layout ≡ fixed
  pub hot_max : c.access ≡ hot → len ≤ hot_file_limit
  pub hot_block : c.access ≡ hot → len ≤ c.fixed_block_len

-- Every class that `classify` answers with keeps these promises.
pub classify-IsClass : (source : SourceFile) → IsClass source.len (classify source)
unfolding classify hot_block_len
classify-IsClass source = record {
  block_positive = λ h. ground (arith, h);
  block_max = λ h. ground (arith, h);
  no_block = λ h. ground (arith, h);
  content_min = λ h. ground (arith, h);
  content_max = λ h. ground (arith, h);
  hot_fixed = λ h. ground (arith, h);
  hot_max = λ h. ground (arith, h);
  hot_block = λ h. ground (arith, h);
}
