-- ===== src/Frontend/Samples.antt =====
-- Values that the tests of the frontend share.
use stellar_quorum.Base.{String, Bool, ltb, arith}
use stellar_quorum.Base.Sort.{IsConsistent}
use stellar_quorum.Frontend.Env.Strkey.{text_length}

-- Names compared by their length.
abbrev pub longer : String → String → Bool
longer a b = ltb (text_length b) (text_length a)

pub longer-IsConsistent : IsConsistent longer
longer-IsConsistent = record { one_way = λ a b h. ground arith; chains = λ a b c h k. ground arith }
