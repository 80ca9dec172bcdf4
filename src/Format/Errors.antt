-- ===== src/Format/Errors.antt =====
-- `error_string` of lib/printfmt.c.
use fos_v.Base.{ℕ, Option, none, some, List, [], ◌∷◌, get_or}

-- "unspecified error"
abbrev unspecified_error : List ℕ
unspecified_error =
    117 ∷ 110 ∷ 115 ∷ 112 ∷ 101 ∷ 99 ∷ 105 ∷ 102 ∷ 105 ∷ 101 ∷ 100 ∷ 32 ∷ 101 ∷ 114 ∷ 114 ∷ 111
    ∷ 114 ∷ []

-- "bad environment"
abbrev bad_environment : List ℕ
bad_environment =
    98 ∷ 97 ∷ 100 ∷ 32 ∷ 101 ∷ 110 ∷ 118 ∷ 105 ∷ 114 ∷ 111 ∷ 110 ∷ 109 ∷ 101 ∷ 110 ∷ 116 ∷ []

-- "invalid parameter"
abbrev invalid_parameter : List ℕ
invalid_parameter =
    105 ∷ 110 ∷ 118 ∷ 97 ∷ 108 ∷ 105 ∷ 100 ∷ 32 ∷ 112 ∷ 97 ∷ 114 ∷ 97 ∷ 109 ∷ 101 ∷ 116 ∷ 101 ∷ 114
    ∷ []

-- "out of memory"
abbrev out_of_memory : List ℕ
out_of_memory = 111 ∷ 117 ∷ 116 ∷ 32 ∷ 111 ∷ 102 ∷ 32 ∷ 109 ∷ 101 ∷ 109 ∷ 111 ∷ 114 ∷ 121 ∷ []

-- "out of environments"
abbrev out_of_environments : List ℕ
out_of_environments =
    111 ∷ 117 ∷ 116 ∷ 32 ∷ 111 ∷ 102 ∷ 32 ∷ 101 ∷ 110 ∷ 118 ∷ 105 ∷ 114 ∷ 111 ∷ 110 ∷ 109 ∷ 101
    ∷ 110 ∷ 116 ∷ 115 ∷ []

-- "segmentation fault"
abbrev segmentation_fault : List ℕ
segmentation_fault =
    115 ∷ 101 ∷ 103 ∷ 109 ∷ 101 ∷ 110 ∷ 116 ∷ 97 ∷ 116 ∷ 105 ∷ 111 ∷ 110 ∷ 32 ∷ 102 ∷ 97 ∷ 117 ∷ 108
    ∷ 116 ∷ []

-- The entries 0 and 7 are NULL, and an index from 8 on is outside.
unfoldable pub error_string : ℕ → Option (List ℕ)
error_string err =
    get_or
      (none
        ∷ some unspecified_error
        ∷ some bad_environment
        ∷ some invalid_parameter
        ∷ some out_of_memory
        ∷ some out_of_environments
        ∷ some segmentation_fault
        ∷ none
        ∷ [])
      err none
