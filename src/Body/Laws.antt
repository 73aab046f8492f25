-- ===== src/Body/Laws.antt =====
-- What ReadAll of internal/sensitiveio/readall.go returns, and that it returns.
use password_hook_service.Prelude.{
  ℕ, zero, suc, ◌+◌, ◌-◌, ◌/◌, ◌≤◌, ◌<◌, Bool, true, false, ◌&&◌, Option, none, some, List, [], ◌∷◌,
  ◌++◌, ◌==◌, ltb, length, length-append, ◌≡◌, ◌≢◌, refl, ap, arith, Text,
}
use password_hook_service.Prelude.Effects.{Exec}
use password_hook_service.Body.{
  IoCall, read, zero_bytes, ReadEnd, Reader, Buffer, grow_zeroing, grow_if, appended, Answer,
  after_read, read_from, read_all,
}

-- The bytes that were read, the first at the head.
unfoldable pub bytes_read : Reader → List IoCall → Text
bytes_read r [] = []
bytes_read r (read room ∷ h) = bytes_read r h ++ (r.read_result (read room ∷ h)).0
bytes_read r (zero_bytes size ∷ h) = bytes_read r h

-- Was every Read given room for a byte?
unfoldable pub always_room : List IoCall → Bool
always_room [] = true
always_room (read room ∷ h) = ltb 0 room && always_room h
always_room (zero_bytes size ∷ h) = always_room h

record IsSound (r : Reader) (buf : Buffer) (h : List IoCall) : Type 0 where
  fits : length buf.contents ≤ buf.capacity
  holds_all : buf.contents ≡ bytes_read r h
  roomy : always_room h ≡ true

-- How many times the reader was asked.
abbrev pub reads : List IoCall → ℕ
reads [] = 0
reads (read room ∷ h) = suc (reads h)
reads (zero_bytes size ∷ h) = reads h

abbrev returned_or : Option Answer → Text → Text
returned_or none bytes = bytes
returned_or (some (returned, e)) bytes = returned

-- Every read had room, and what is returned is what was read.
pub record IsAnswered (r : Reader) (answer : Option Answer) (h : List IoCall) : Type 0 where
  pub roomy : always_room h ≡ true
  pub all_returned : returned_or answer (bytes_read r h) ≡ bytes_read r h

module _ (r : Reader) where
  grow-IsSound :
      (test : Bool) (buf : Buffer) (h : List IoCall)
      → IsSound r buf h
      → IsSound r (grow_if test buf h).0 (grow_if test buf h).1
  unfolding grow_zeroing bytes_read always_room
  grow-IsSound true buf h s = record {
    fits = ground (arith, s.fits);
    holds_all = s.holds_all;
    roomy = s.roomy;
  }
  grow-IsSound false buf h s = s

  grow_full-roomy :
      (buf : Buffer) (h : List IoCall)
      → length buf.contents ≤ buf.capacity
      → let roomy = (grow_if (length buf.contents == buf.capacity) buf h).0 in
        length roomy.contents < roomy.capacity
  unfolding grow_zeroing
  grow_full-roomy buf h fits = ground (arith, fits)

  read-IsSound :
      (buf : Buffer) (h : List IoCall)
      → IsSound r buf h
      → length buf.contents < buf.capacity
      → let t : List IoCall = read (buf.capacity - length buf.contents) ∷ h in
        IsSound r (appended buf (r.read_result t).0) t
  unfolding bytes_read always_room
  read-IsSound buf h s room =
      let size = buf.capacity - length buf.contents in
      let t : List IoCall = read size ∷ h in
      let bytes = (r.read_result t).0 in
      record {
        fits = omega (arith, length-append buf.contents bytes, r.read_fits size h, room);
        holds_all = ap (λ q. q ++ bytes) s.holds_all;
        roomy = ground (arith, room, s.roomy);
      }

  abbrev Answered : Option Answer × List IoCall → Type 0
  Answered (answer, h) = IsAnswered r answer h

  after-Answered :
      (loop : Buffer → Exec IoCall (Option Answer)) (buf : Buffer) (ended : Option ReadEnd)
      (h : List IoCall)
      → ((b : Buffer) (t : List IoCall) → IsSound r b t → Answered (loop b t))
      → IsSound r buf h
      → Answered (after_read loop buf ended h)
  unfolding after_read
  after-Answered loop buf (some e) h more s = record { roomy = s.roomy; all_returned = s.holds_all }
  after-Answered loop buf none h more s =
      more _ _ (grow-IsSound (ltb (buf.capacity - length buf.contents) (buf.capacity / 16)) buf h s)

  read_from-Answered :
      (fuel : ℕ) (buf : Buffer) (h : List IoCall)
      → IsSound r buf h
      → Answered (read_from fuel r buf h)
  unfolding read_from
  read_from-Answered zero buf h s = record { roomy = s.roomy; all_returned = refl }
  read_from-Answered (suc fuel) buf h s =
      let (roomy, t) = grow_if (length buf.contents == buf.capacity) buf h in
      let s1 = grow-IsSound (length buf.contents == buf.capacity) buf h s in
      let s2 = read-IsSound roomy t s1 (grow_full-roomy buf h s.fits) in
      after-Answered (read_from fuel r) _ _ _ (read_from-Answered fuel) s2

  grow_if-reads :
      (test : Bool) (buf : Buffer) (h : List IoCall) → reads (grow_if test buf h).1 ≡ reads h
  unfolding grow_zeroing
  grow_if-reads true buf h = refl
  grow_if-reads false buf h = refl

  after-ends :
      (loop : Buffer → Exec IoCall (Option Answer)) (buf : Buffer) (ended : Option ReadEnd)
      (h : List IoCall)
      → (ended ≡ none → (b : Buffer) (t : List IoCall) → reads t ≡ reads h → (loop b t).0 ≢ none)
      → (after_read loop buf ended h).0 ≢ none
  unfolding after_read
  after-ends loop buf (some e) h more = λ q. cc q
  after-ends loop buf none h more =
      let small = ltb (buf.capacity - length buf.contents) (buf.capacity / 16) in
      more refl _ _ (grow_if-reads small buf h)

  read_from-ends :
      (fuel : ℕ) (buf : Buffer) (h : List IoCall)
      → ((room : ℕ) (t : List IoCall)
          → fuel + reads h ≤ reads t
          → (r.read_result (read room ∷ t)).1 ≢ none)
      → (read_from (suc fuel) r buf h).0 ≢ none
  unfolding read_from
  read_from-ends zero buf h ends =
      let (roomy, t) = grow_if (length buf.contents == buf.capacity) buf h in
      let same = grow_if-reads (length buf.contents == buf.capacity) buf h in
      let room = roomy.capacity - length roomy.contents in
      let asked : List IoCall = read room ∷ t in
      let (bytes, ended) = r.read_result asked in
      after-ends (read_from zero r) (appended roomy bytes) ended asked
        (λ open_end b g counted. elim (ends room t (omega (arith, same)) open_end) [ ])
  read_from-ends (suc fuel) buf h ends =
      let (roomy, t) = grow_if (length buf.contents == buf.capacity) buf h in
      let same = grow_if-reads (length buf.contents == buf.capacity) buf h in
      let room = roomy.capacity - length roomy.contents in
      let asked : List IoCall = read room ∷ t in
      let (bytes, ended) = r.read_result asked in
      after-ends (read_from (suc fuel) r) (appended roomy bytes) ended asked
        (λ open_end b g counted.
          read_from-ends fuel b g (λ room t k. ends room t (omega (arith, same, counted, k))))

  -- ReadAll never gives the reader an empty buffer, and what it returns is all that was read, in the order of
  -- the reads; it returns if the reader ends: one read more than the reader takes to fail or to
  -- reach the end of the body is enough.
  pub read_all-Answered :
      (fuel : ℕ)
      → ((room : ℕ) (t : List IoCall) → fuel ≤ reads t → (r.read_result (read room ∷ t)).1 ≢ none)
      → ((read_all (suc fuel) r []).0 ≢ none)
        × IsAnswered r (read_all (suc fuel) r []).0 (read_all (suc fuel) r []).1
  unfolding read_all bytes_read always_room
  read_all-Answered fuel ends =
      let empty : Buffer = record { contents = []; capacity = 512 } in
      let s : IsSound r empty [] = record { fits = omega arith; holds_all = refl; roomy = refl } in
      (
        read_from-ends fuel empty [] (λ room t k. ends room t (omega (arith, k))),
        read_from-Answered (suc fuel) empty [] s,
      )
