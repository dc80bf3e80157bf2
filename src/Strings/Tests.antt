-- ===== src/Strings/Tests.antt =====
-- Overlapping bytes moved, and a string cut short.
use xv6_part2_and_concurrenc.Base.{◌≡◌, inl, refl, arith}
use xv6_part2_and_concurrenc.Memory.{Mem, copy}
use xv6_part2_and_concurrenc.Strings.{copy_down, copy_up, move_bytes, safe_rounds, safestrcpy}
use xv6_part2_and_concurrenc.Strings.Copying.{move_bytes-copy, SafeCopied, safestrcpy-SafeCopied}

-- The byte at each address is the address.
abbrev counting : Mem
counting a = a

moves_up : move_bytes counting 12 10 5 16 ≡ 14
unfolding move_bytes copy_down copy_up
moves_up = refl

moves_down : move_bytes counting 8 10 5 12 ≡ 14
unfolding move_bytes copy_down copy_up
moves_down = refl

move_bytes-copy_example : move_bytes counting 12 10 5 16 ≡ copy counting 12 10 5 16
move_bytes-copy_example = move_bytes-copy counting 12 10 5 16

cuts_short : safestrcpy counting 20 30 3 22 ≡ 0
unfolding safestrcpy safe_rounds
cuts_short = refl

safestrcpy-SafeCopied_example : SafeCopied counting 20 30 3 (safestrcpy counting 20 30 3)
safestrcpy-SafeCopied_example =
    safestrcpy-SafeCopied counting 20 30 3 (omega arith) (inl (omega arith))
