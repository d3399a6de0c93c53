-- ===== src/Opening/Tests.antt =====
-- The theorems on open.c at the letters cwWuRg.
use cs507_unix_programming.Prelude.{◌≡◌, Bytes, [], ◌∷◌, true, false, some, ◌||◌, ◌==◌, refl}
use cs507_unix_programming.Opening.{Selected, strchr, letters, nothing}
use cs507_unix_programming.Opening.Described.{access_of}
use cs507_unix_programming.Opening.Permissions.{asked, letters-described}

abbrev create_write : Bytes
create_write = b'c' ∷ b'w' ∷ b'W' ∷ b'u' ∷ b'R' ∷ b'g' ∷ []

-- The permission for the group has become the bit S_ISUID, 11.
abbrev selected : Selected
selected = record nothing { access = 1; creat = true; mode = λ k. (false || k == 7) || k == 11 }

create_write_lem : letters create_write create_write nothing ≡ some selected
unfolding letters
create_write_lem = refl

letters-described_example :
    (selected.access ≡ access_of create_write)
    × (selected.append ≡ strchr create_write b'a')
    × (selected.creat ≡ strchr create_write b'c')
    × (selected.excl ≡ strchr create_write b'e')
    × (selected.trunc ≡ strchr create_write b't')
    × (selected.nonblock ≡ strchr create_write b'b')
    × (selected.mode 11 ≡ asked 11 create_write)
letters-described_example = letters-described create_write 11 create_write_lem refl

abbrev path : Bytes
path = b'f' ∷ []
