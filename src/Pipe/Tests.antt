-- ===== src/Pipe/Tests.antt =====
-- fs/pipe.c: concrete pipes.
use my_practice.Base.{ℕ, ◌+◌, ◌%◌, ◌≡◌, refl, Option, none, some, arith, List, [], ◌∷◌}
use my_practice.Pipe.{Pipe, Read, Written, get_bytes, read_pipe, write_pipe}
use my_practice.Pipe.Bytes.{IsValid}
use my_practice.Pipe.Fifo.{WasRead, WasWritten, read_pipe-WasRead, write_pipe-WasWritten}

-- Four bytes around the end of the page
abbrev wrapped : Pipe
wrapped = record { head = 2; tail = 4094; page = λ i. i % 256; count = 2 }

wrapped-IsValid : IsValid wrapped
wrapped-IsValid = omega arith

read_pipe-WasRead_example :
    (r : Read) × (read_pipe 6 5 [] wrapped ≡ some r) × WasRead [] 5 wrapped r
read_pipe-WasRead_example = read_pipe-WasRead 6 5 [] wrapped wrapped-IsValid (omega arith)

write_pipe-WasWritten_example :
    (r : Written) × (write_pipe 6 5 0 (λ i. i + 65) wrapped ≡ some r)
    × WasWritten 0 5 (λ i. i + 65) wrapped r
write_pipe-WasWritten_example =
    write_pipe-WasWritten 6 5 0 (λ i. i + 65) wrapped wrapped-IsValid (omega arith)

abbrev bytes_of : Option Read → List ℕ
bytes_of none = []
bytes_of (some (Read.done bytes p)) = bytes
bytes_of (some (Read.sleeps bytes count p)) = bytes

reads_around : bytes_of (read_pipe 6 5 [] wrapped) ≡ 254 ∷ 255 ∷ 0 ∷ 1 ∷ []
unfolding read_pipe get_bytes
reads_around = refl
