-- ===== src/Http/Writer.antt =====
-- `http.ResponseWriter` and its optional interfaces, which net/http implements, with what the
-- documentation of net/http says of the status.
use kit_logger.Base.{
  ℕ, ◌≤◌, ◌<◌, ◌≡◌, ◌≢◌, Bool, true, false, Option, some, List, [], String, if◌then◌else◌,
}

pub data WriteError : Type 0 where
  not_supported : WriteError
  io_error : ℕ → WriteError

-- what Write and ReadFrom return: the bytes written, and an error
abbrev pub Written : Type 0
Written = ℕ × Option WriteError

-- `flush`, `hijack`, `push` and `read_from` are there if the writer implements the interface. `copy`
-- is io.Copy onto the writer's Write. A source is the bytes that it yields.
pub record Writer (W : Type 0) : Type 0 where
  pub set_header : String → String → W → W
  pub write_header : ℕ → W → W
  pub write : List ℕ → W → Written × W
  pub flush : Option (W → W)
  pub hijack : Option (W → Option WriteError × W)
  pub push : Option (String → W → Option WriteError × W)
  pub read_from : Option (List ℕ → W → Written × W)
  pub copy : List ℕ → W → Written × W

-- An operation that sends the header with status 200 first if none was sent, and then keeps it.
pub record Sends {W R : Type 0} (wr : Writer W) (committed : W → Bool) (sent : W → ℕ)
    (op : W → R × W) : Type 0 where
  pub implicit : (w : W) → committed w ≡ false → op w ≡ op (wr.write_header 200 w)
  pub kept : (w : W) → committed w ≡ true → (committed (op w).1 ≡ true) × (sent (op w).1 ≡ sent w)

-- The documented behaviour: a final status, of three digits, is sent once, a later one is superfluous,
-- an informational one is sent ahead and does not count, and Write, Flush, and ReadFrom and io.Copy of
-- a source that is not empty send 200 if nothing was sent. Of a status of 1000 or more, on which
-- net/http panics, and of an empty source, on which it sends nothing, nothing is asked.
pub record NetHttp {W : Type 0} (wr : Writer W) : Type 0 where
  pub committed : W → Bool
  pub sent : W → ℕ
  pub final :
      (code : ℕ) (w : W)
      → 200 ≤ code
      → code ≤ 999
      → committed w ≡ false
      → (committed (wr.write_header code w) ≡ true) × (sent (wr.write_header code w) ≡ code)
  pub superfluous : (code : ℕ) (w : W) → committed w ≡ true → wr.write_header code w ≡ w
  pub informational :
      (code : ℕ) (w : W)
      → 101 < code
      → code < 200
      → committed w ≡ false
      → committed (wr.write_header code w) ≡ false
  pub header_map :
      (key value : String) (w : W) → committed (wr.set_header key value w) ≡ committed w
  pub writes : (b : List ℕ) → Sends wr committed sent (wr.write b)
  pub copies : (b : List ℕ) → b ≢ [] → Sends wr committed sent (wr.copy b)
  pub reads :
      (f : List ℕ → W → Written × W)
      → wr.read_from ≡ some f
      → (b : List ℕ) → b ≢ []
      → Sends wr committed sent (f b)
  pub flushes : (f : W → W) → wr.flush ≡ some f → Sends wr committed sent (λ w. (tt, f w))

-- the status that the client gets when the handler returns
abbrev pub wire_status : {W : Type 0} {wr : Writer W} → NetHttp wr → W → ℕ
wire_status net w = if net.committed w then net.sent w else 200
