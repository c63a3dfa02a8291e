-- ===== src/Staging.antt =====
-- crates/core/src/provider.rs: `StagingFile` and `FileStaging`, and the file that it wraps.
-- `content` is what reads see and `durable` what survives a power loss; `faults` says of each
-- coming system call whether the device fails it, a write after so many of its bytes.
pub mod Laws
use photosync.Prelude.{
  ℕ, ◌+◌, ◌-◌, ◌≡◌, refl, ◌<◌, ◌≤◌, Bool, Option, none, some, List, [], ◌∷◌, ◌++◌, leb, ◌==◌, min,
  if◌then◌else◌, take, drop, replicate, length,
}
use photosync.Prelude.Bytes.{Bytes}
use photosync.Errors.{Error, io, unexpected_eof, device, Run, done, fail}

pub record File : Type 0 where
  pub content : Bytes
  pub durable : Bytes
  pub pos : ℕ
  pub faults : List (Option ℕ)

abbrev pub Io : Type 0 → Type 0
Io A = File → Run File A

abbrev pub continue : {A B : Type 0} → (A → Io B) → Run File A → Run File B
continue k (done a g) = k a g
continue k (fail e g) = fail e g

infixl 5 ◌>>=◌ ◌>>◌
abbrev pub ◌>>=◌ : {A B : Type 0} → Io A → (A → Io B) → Io B
◌>>=◌ m k f = continue k (m f)

abbrev pub ◌>>◌ : {B : Type 0} → Io (Unit {0}) → Io B → Io B
m >> k = m >>= λ _. k

abbrev pub pure : {A : Type 0} → A → Io A
pure a f = done a f

abbrev pub throw : {A : Type 0} → Error → Io A
throw e f = fail e f

-- The outcome of the next system call.
abbrev pub next_fault : List (Option ℕ) → Option ℕ
next_fault [] = none
next_fault (x ∷ xs) = x

abbrev pub later_faults : List (Option ℕ) → List (Option ℕ)
later_faults [] = []
later_faults (x ∷ xs) = xs

abbrev pub called : File → File
called f = record f { faults = later_faults f.faults }

-- `seek(SeekFrom::Start(n))`
unfoldable pub seek_start : ℕ → Io (Unit {0})
seek_start n f = elim (next_fault f.faults) [
  | none ↦ done tt (record (called f) { pos = n })
  | some k ↦ fail (io device) (called f)
]

-- What a file holds after `bs` is written at `p`; a gap before `p` reads as zeros.
unfoldable pub overwrite : ℕ → Bytes → Bytes → Bytes
overwrite p bs old =
    take p old ++ (replicate (p - length old) 0 ++ (bs ++ drop (p + length bs) old))

abbrev pub written : Bytes → File → File
written bs f = record f { content = overwrite f.pos bs f.content; pos = f.pos + length bs }

-- `write_all`. A fault may come after a part of the bytes.
unfoldable pub write_all : Bytes → Io (Unit {0})
write_all bs f = elim (next_fault f.faults) [
  | none ↦ done tt (written bs (called f))
  | some k ↦ fail (io device) (written (take k bs) (called f))
]

-- `read_exact` into a buffer of `n` bytes.
unfoldable pub read_exact : ℕ → Io Bytes
read_exact n f = elim (next_fault f.faults) [
  | none ↦
      if leb (f.pos + n) (length f.content)
      then done (take n (drop f.pos f.content)) (record (called f) { pos = f.pos + n })
      else fail (io unexpected_eof) (record (called f) { pos = length f.content })
  | some k ↦ fail (io device) (called f)
]

-- `StagingFile::set_len`
unfoldable pub set_len : ℕ → Io (Unit {0})
set_len n f = elim (next_fault f.faults) [
  | none ↦
      done tt
        (record (called f) { content = take n f.content ++ replicate (n - length f.content) 0 })
  | some k ↦ fail (io device) (called f)
]

-- `StagingFile::sync`: only now do the bytes survive a power loss.
unfoldable pub sync : Io (Unit {0})
sync f = elim (next_fault f.faults) [
  | none ↦ done tt (record (called f) { durable = f.content })
  | some k ↦ fail (io device) (called f)
]

-- `StagingFile::len`
unfoldable pub len : Io ℕ
len f = elim (next_fault f.faults) [
  | none ↦ done (length f.content) (called f)
  | some k ↦ fail (io device) (called f)
]

-- `StagingFile::is_empty`
unfoldable pub is_empty : Io Bool
unfolding len
is_empty = do n ← len; pure (n == 0)

-- What a power loss or a kill may leave. A prefix that reads and the disk agree on survives;
-- of anything else nothing is said. The next process opens the file at its start.
pub record Crash (f g : File) : Type 0 where
  pub survives : (n : ℕ) → take n f.content ≡ take n f.durable → take n g.content ≡ take n f.durable
  pub settled : g.durable ≡ g.content
  pub reopened : g.pos ≡ 0
