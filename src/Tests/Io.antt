-- ===== src/Tests/Io.antt =====
-- src/ioservice.cpp at concrete inputs.
use asyncgi.IoService.Rotation.{nth_io, next_io_rotates}
use asyncgi.IoService.Defs.{make_io_service}
use asyncgi.Common.{◌≡◌, refl, none, some, arith, pos, negsuc}
use asyncgi.Tests.Samples.{three_threads}

three_threads-made : make_io_service (pos 3) ≡ some three_threads
unfolding make_io_service
three_threads-made = refl

no_threads : (make_io_service (pos 0) ≡ none) × (make_io_service (negsuc 4) ≡ none)
unfolding make_io_service
no_threads = (refl, refl)

next_io_rotates_example : nth_io 4 three_threads ≡ some 1
next_io_rotates_example =
    next_io_rotates 3 4 three_threads (omega arith) (omega arith) three_threads-made
