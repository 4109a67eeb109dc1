-- ===== src/Examples/Pipes.antt =====
-- A pipe in memory that passes one byte per call, as a transport of
-- AviUtl2MCP.Bridge/src/native_ipc_frame_codec.cpp.
use aviutl2mcp.Common.{
  ℕ, ◌≤◌, ◌<◌, ◌≡◌, refl, [], ◌∷◌, ◌++◌, Bytes, length, take, drop, Result, ok, arith,
}
use aviutl2mcp.Ipc.Stream.{ByteTransport, IsStream}

-- The bytes to come, and those that were sent.
abbrev pub Pipe : Type 0
Pipe = Bytes × Bytes

abbrev read_byte : Pipe → ℕ → Result (ℕ × Bytes × Pipe)
read_byte (([], sent)) size = ok (0, [], ([], sent))
read_byte ((b ∷ rest, sent)) size = ok (1, b ∷ [], (rest, sent))

abbrev write_byte : Pipe → Bytes → Result (ℕ × Pipe)
write_byte pipe [] = ok (0, pipe)
write_byte pipe (b ∷ rest) = ok (1, (pipe.0, pipe.1 ++ (b ∷ [])))

abbrev pub pipe_transport : ByteTransport
pipe_transport = record { State = Pipe; read_some = read_byte; write_some = write_byte }

pub pipe-IsStream : IsStream pipe_transport (λ pipe. pipe.0) (λ pipe. pipe.1)
pipe-IsStream = record { read_part = reads; read_end = ends; write_part = writes }
  where
    reads :
        (pipe : Pipe) (size : ℕ)
        → 0 < size
        → 0 < length pipe.0
        → (read : ℕ) × (pipe' : Pipe) × (read_byte pipe size ≡ ok (read, take read pipe.0, pipe'))
          × (0 < read)
          × (read ≤ size)
          × (read ≤ length pipe.0)
          × (pipe'.0 ≡ drop read pipe.0)
    reads (([], sent)) size h k = absurd (omega arith)
    reads ((b ∷ rest, sent)) size h k =
        (1, (rest, sent), refl, omega arith, omega arith, omega arith, refl)

    ends :
        (pipe : Pipe) (size : ℕ) → 0 < size → pipe.0 ≡ [] → read_byte pipe size ≡ ok (0, [], pipe)
    ends (([], sent)) size h e = refl
    ends ((b ∷ rest, sent)) size h e = cc

    writes :
        (pipe : Pipe) (bytes : Bytes)
        → 0 < length bytes
        → (written : ℕ) × (pipe' : Pipe) × (write_byte pipe bytes ≡ ok (written, pipe'))
          × (0 < written)
          × (written ≤ length bytes)
          × (pipe'.1 ≡ pipe.1 ++ take written bytes)
    writes pipe [] h = absurd (omega arith)
    writes pipe (b ∷ rest) h =
        (1, (pipe.0, pipe.1 ++ (b ∷ [])), refl, omega arith, omega arith, refl)
