-- ===== src/Common/Paths.antt =====
-- `std::filesystem::path` on POSIX, as far as the program joins paths.
use distributed_computing.Prelude.{
  ◌++◌, Bool, false, [], ◌∷◌, Bytes, codes, ◌==◌, if◌then◌else◌, str_eq,
}

unfoldable pub ends_with_slash : Bytes → Bool
ends_with_slash [] = false
ends_with_slash (c ∷ []) = c == b'/'
ends_with_slash (c ∷ d ∷ rest) = ends_with_slash (d ∷ rest)

-- `a / b`
unfoldable pub path_join : Bytes → Bytes → Bytes
unfolding ends_with_slash
path_join a [] = if str_eq a [] then [] else if ends_with_slash a then a else a ++ codes "/"
path_join a (c ∷ b) =
    if c == b'/'
    then c ∷ b
    else if str_eq a []
    then c ∷ b
    else if ends_with_slash a
    then a ++ c ∷ b
    else a ++ codes "/" ++ c ∷ b
