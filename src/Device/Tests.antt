-- ===== src/Device/Tests.antt =====
-- The text of a UUID, and the theorem at it.
use gocudrv.Base.{◌≡◌, refl, [], ◌∷◌, Bytes, arith}
use gocudrv.Device.Text.{groups}
use gocudrv.Device.Text.Parse.{unhex, AllBytes, groups-unhex}

abbrev uuid : Bytes
uuid = 222 ∷ 173 ∷ 190 ∷ 239 ∷ 0 ∷ 1 ∷ 2 ∷ 3 ∷ 4 ∷ 5 ∷ 6 ∷ 7 ∷ 8 ∷ 9 ∷ 10 ∷ 255 ∷ []

uuid-AllBytes : AllBytes uuid
unfolding AllBytes
uuid-AllBytes = ground arith

groups-unhex_example : unhex (groups uuid) ≡ uuid
groups-unhex_example = groups-unhex uuid uuid-AllBytes refl
