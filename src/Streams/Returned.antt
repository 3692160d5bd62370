-- ===== src/Streams/Returned.antt =====
-- iperf_new_stream and iperf_free_stream against each other.
use wifitesttool.Base.{
  ℕ, suc, ◌+◌, ◌≡◌, refl, Bool, true, false, ◌&&◌, Option, none, some, List, [], ◌∷◌, ◌++◌, arith,
  if◌then◌else◌, is_some, ap, sym, ◌∙◌,
}
use wifitesttool.Error.{Status, ok, error}
use wifitesttool.Streams.{Stream}
use wifitesttool.Streams.Life.{
  Resources, Answers, Made, exits, zero_stream, iperf_init_stream, close_fd, close_file, add_if,
  open_file, with_buffer, iperf_new_stream, iperf_free_stream, only, left_open, IsSettled,
}
use wifitesttool.Test.{Test}

close_both :
    (file : Option ℕ) (fd : ℕ) (fds : List ℕ)
    → close_file file (close_fd fd (only file ++ fd ∷ fds)) ≡ fds
unfolding close_fd
close_both none fd fds = ground arith
close_both (some d) fd fds = ground arith

close_one :
    (file : Option ℕ) (fd : ℕ) (fds : List ℕ)
    → close_fd fd (only file ++ fd ∷ fds) ≡ only file ++ fds
unfolding close_fd
close_one none fd fds = ground arith
close_one (some d) fd fds = ground arith

equal :
    (r : Resources) (b m : ℕ) (f : List ℕ)
    → b ≡ r.blocks
    → m ≡ r.mappings
    → f ≡ r.fds
    → record { blocks = b; mappings = m; fds = f } ≡ r
equal r b m f p q e = rw (p, q, e) refl

add_if-made :
    (t : Test) (a : Answers) (s fd : ℕ) (sps : List Stream) (r : Resources) (x : Status)
    (file : Option ℕ)
    → left_open t a ≡ only file
    → IsSettled t a s sps r (
        add_if x
          (record { stream = zero_stream s; buffer_fd = fd; diskfile_fd = file })
          sps
          (record {
            blocks = r.blocks + 2;
            mappings = suc r.mappings;
            fds = only file ++ fd ∷ r.fds;
          }))
unfolding iperf_free_stream
add_if-made t a s fd sps r ok file e =
    (refl, λ sp. equal r _ _ _ (omega arith) (omega arith) (close_both file fd r.fds))
add_if-made t a s fd sps r (error x) file e =
    equal (record r { fds = left_open t a ++ r.fds }) _ _ _ (omega arith) (omega arith)
      (close_one file fd r.fds ∙ ap (λ x. x ++ r.fds) (sym e))

IsSettled-if :
    (t : Test) (a : Answers) (s : ℕ) (sps : List Stream) (r : Resources) (b : Bool) (x y : Made)
    → (b ≡ true → IsSettled t a s sps r x)
    → (b ≡ false → IsSettled t a s sps r y)
    → IsSettled t a s sps r (if b then x else y)
IsSettled-if t a s sps r true x y h k = h refl
IsSettled-if t a s sps r false x y h k = k refl

no_file : (t : Test) (a : Answers) → is_some t.diskfile_name ≡ false → left_open t a ≡ only none
no_file t a n = ground arith

no_open_file :
    (t : Test) (a : Answers) (fd : ℕ)
    → is_some t.diskfile_name ≡ true
    → a.mkstemp ≡ some fd
    → a.file ≡ none
    → left_open t a ≡ fd ∷ []
no_open_file t a fd n m f = ground arith

open_file-IsSettled :
    (t : Test) (a : Answers) (s fd : ℕ) (sps : List Stream) (r : Resources) (file : Option ℕ)
    → is_some t.diskfile_name ≡ true
    → a.mkstemp ≡ some fd
    → a.file ≡ file
    → IsSettled t a s sps r (
        open_file t a s fd sps file
          (record { blocks = r.blocks + 2; mappings = suc r.mappings; fds = fd ∷ r.fds }))
open_file-IsSettled t a s fd sps r none n m f =
    equal (record r { fds = left_open t a ++ r.fds }) _ _ _ (omega arith) (omega arith)
      (ap (λ x. x ++ r.fds) (sym (no_open_file t a fd n m f)))
open_file-IsSettled t a s fd sps r (some d) n m f =
    add_if-made t a s fd sps r (iperf_init_stream t a) (some d) (ground arith)

with_buffer-IsSettled :
    (t : Test) (a : Answers) (s : ℕ) (sps : List Stream) (r : Resources) (buffer : Option ℕ)
    → a.mkstemp ≡ buffer
    → IsSettled t a s sps r (with_buffer t a s sps buffer (record r { blocks = r.blocks + 2 }))
with_buffer-IsSettled t a s sps r none m = tt
with_buffer-IsSettled t a s sps r (some fd) m =
    IsSettled-if t a s sps r (a.unlink && a.ftruncate && a.mmap) _ exits
      (λ _.
        IsSettled-if t a s sps r (is_some t.diskfile_name) _ _
          (λ n. open_file-IsSettled t a s fd sps r a.file n m refl)
          (λ n. add_if-made t a s fd sps r (iperf_init_stream t a) none (no_file t a n)))
      (λ _. tt)

-- Where iperf_new_stream returns NULL, only a descriptor is left open, of the buffer or of the file, and only
-- if a file is to be used; where it returns a stream, this is added to the test, and iperf_free_stream gives
-- back all that it took, and its intervals.
pub iperf_new_stream-IsSettled :
    (t : Test) (a : Answers) (s : ℕ) (sps : List Stream) (r : Resources)
    → IsSettled t a s sps r (iperf_new_stream t a s sps r)
unfolding iperf_new_stream
iperf_new_stream-IsSettled t a s sps r =
    IsSettled-if t a s sps r (a.stream_block && a.result_block) _ exits
      (λ _. with_buffer-IsSettled t a s sps r a.mkstemp refl) (λ _. tt)
