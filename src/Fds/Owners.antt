-- ===== src/Fds/Owners.antt =====
-- Which real descriptors a machine owns, and what it leaves to others.
use tinykvm.Prelude.{
  ℕ, ◌+◌, ◌≤◌, ◌≡◌, refl, ◌≢◌, sym, true, false, List, [], ◌∷◌, some, ◌==◌, if◌then◌else◌, ◌>>=◌,
  done, throws, state_of, arith, inl, inr, Bool-cases,
}
use tinykvm.Fds.Map.{find, insert_or_assign, erase}
use tinykvm.Fds.Host.{gives, Host, Entry, FileDescriptors, Result}

-- An entry owns its descriptor unless it is marked as forked.
unfoldable pub owns : Entry → ℕ → ℕ
owns e fd = if e.is_forked then 0 else if e.real_fd == fd then 1 else 0

unfoldable pub owners : List (ℕ × Entry) → ℕ → ℕ
owners [] fd = 0
owners ((vfd, e) ∷ rest) fd = owns e fd + owners rest fd

pub owners-insert_or_assign :
    (xs : List (ℕ × Entry)) (vfd fd : ℕ) (e : Entry)
    → owners (insert_or_assign xs vfd e) fd ≤ owners xs fd + owns e fd
unfolding insert_or_assign owners
owners-insert_or_assign [] vfd fd e = omega arith
owners-insert_or_assign ((j, b) ∷ xs) vfd fd e = ground (arith, owners-insert_or_assign xs vfd fd e)

pub owners-erase_le : (xs : List (ℕ × Entry)) (vfd fd : ℕ) → owners (erase xs vfd) fd ≤ owners xs fd
unfolding erase owners
owners-erase_le [] vfd fd = omega arith
owners-erase_le ((j, b) ∷ xs) vfd fd = ground (arith, owners-erase_le xs vfd fd)

pub owners-erase :
    (xs : List (ℕ × Entry)) (vfd fd : ℕ) (e : Entry)
    → find xs vfd ≡ some e
    → owners (erase xs vfd) fd + owns e fd ≤ owners xs fd
unfolding erase owners find
owners-erase [] vfd fd e found = absurd (ground arith)
owners-erase ((j, b) ∷ xs) vfd fd e found = elim (Bool-cases (j == vfd)) [
  | inl same ↦
      let here : b ≡ e = ground arith in
      rw (same, sym here) (omega (arith, owners-erase_le xs vfd fd))
  | inr other ↦
      let there : find xs vfd ≡ some e = ground arith in
      rw other (omega (arith, owners-erase xs vfd fd e there))
]

pub owns_forked : (e : Entry) (fd : ℕ) → e.is_forked ≡ true → owns e fd ≡ 0
unfolding owns
owns_forked e fd forked = rw forked refl

pub owns_self : (e : Entry) → e.is_forked ≡ false → owns e e.real_fd ≡ 1
unfolding owns
owns_self e owned = ground (arith, owned)

pub owns_other : (e : Entry) (fd : ℕ) → fd ≢ e.real_fd → owns e fd ≡ 0
unfolding owns
owns_other e fd other = ground (arith, other)

pub owners-find :
    (xs : List (ℕ × Entry)) (vfd fd : ℕ) (e : Entry)
    → find xs vfd ≡ some e
    → owns e fd ≤ owners xs fd
owners-find xs vfd fd e found = omega (arith, owners-erase xs vfd fd e found)

-- The host's table of descriptors after one, or two, are opened.
pub record Opens {H Event : Type 0} (host : Host H Event) (h : H) (n : ℕ) (h' : H) : Type 0 where
  pub new : host.is_open h n ≡ false
  pub opened : host.is_open h' n ≡ true
  pub others : (f : ℕ) → host.is_open h f ≡ true → host.is_open h' f ≡ true

pub record OpensTwo {H Event : Type 0} (host : Host H Event) (h : H) (a b : ℕ) (h' : H)
    : Type 0 where
  pub different : b ≢ a
  pub first : Opens host h a h'
  pub second : Opens host h b h'

-- What the documentation of the host's calls says: a call that opens a descriptor returns one that
-- was not open, close() closes no other, and the rest opens and closes nothing.
pub record IsLawful {H Event : Type 0} (host : Host H Event) : Type 0 where
  pub close_other :
      (h : H) (fd f : ℕ)
      → f ≢ fd
      → host.is_open h f ≡ true
      → host.is_open (host.close h fd).1 f ≡ true
  pub dup-Opens : (h : H) (fd n : ℕ) (h' : H) → host.dup h fd ≡ gives n h' → Opens host h n h'
  pub eventfd-Opens : (h : H) (n : ℕ) (h' : H) → host.eventfd h ≡ gives n h' → Opens host h n h'
  pub epoll_create1-Opens :
      (h : H) (n : ℕ) (h' : H) → host.epoll_create1 h ≡ gives n h' → Opens host h n h'
  pub pipe2-Opens :
      (h : H) (a b : ℕ) (h' : H) → host.pipe2 h ≡ gives (a, b) h' → OpensTwo host h a b h'
  pub socketpair-Opens :
      (h : H) (a b : ℕ) (h' : H) → host.socketpair h ≡ gives (a, b) h' → OpensTwo host h a b h'
  pub epoll_ctl_open :
      (h : H) (epfd op fd : ℕ) (event : Event) (h' : H)
      → host.epoll_ctl h epfd op fd event ≡ gives tt h'
      → (f : ℕ) → host.is_open h f ≡ true
      → host.is_open h' f ≡ true
  pub store_fds_open :
      (h : H) (addr a b : ℕ) (h' : H)
      → host.store_fds h addr a b ≡ some h'
      → (f : ℕ) → host.is_open h f ≡ true
      → host.is_open h' f ≡ true

module _ {H Event : Type 0} (host : Host H Event) where
  -- No two entries own a descriptor, and it is open.
  pub record IsGood (h : H) (fds : List (ℕ × Entry)) : Type 0 where
    pub single : (fd : ℕ) → owners fds fd ≤ 1
    pub held : (fd : ℕ) → 1 ≤ owners fds fd → host.is_open h fd ≡ true

  -- A descriptor that others have open.
  abbrev pub Foreign : H → List (ℕ × Entry) → ℕ → Type 0
  Foreign h fds fd = (host.is_open h fd ≡ true) × (owners fds fd ≡ 0)

  -- The foreign descriptors that P holds of stay foreign.
  pub record Spares (P : ℕ → Type 0) (h : H) (fds : List (ℕ × Entry)) (h' : H)
      (fds' : List (ℕ × Entry)) : Type 0 where
    pub good : IsGood h' fds'
    pub spared : (fd : ℕ) → P fd → Foreign h fds fd → Foreign h' fds' fd

  -- After a call the machine owns its descriptors, and no foreign one was closed or taken.
  abbrev pub Isolates : FileDescriptors H Event → FileDescriptors H Event → Type 0
  Isolates s s' = Spares (λ _. Unit) s.host s.fds s'.host s'.fds

  -- The same, but for one descriptor, which is handed over.
  abbrev pub Adopts : ℕ → FileDescriptors H Event → FileDescriptors H Event → Type 0
  Adopts n s s' = Spares (λ fd. fd ≢ n) s.host s.fds s'.host s'.fds

  pub Spares-refl :
      (P : ℕ → Type 0) (h : H) (fds : List (ℕ × Entry)) → IsGood h fds → Spares P h fds h fds
  Spares-refl P h fds g = record { good = g; spared = λ fd p f. f }

  pub Spares-trans :
      {P : ℕ → Type 0} {h h₁ h₂ : H} {fds fds₁ fds₂ : List (ℕ × Entry)}
      → Spares P h fds h₁ fds₁
      → Spares P h₁ fds₁ h₂ fds₂
      → Spares P h fds h₂ fds₂
  Spares-trans a b = record { good = b.good; spared = λ fd p f. b.spared fd p (a.spared fd p f) }

  -- A call of the host that opens and closes nothing.
  pub Spares-host :
      (P : ℕ → Type 0) (h h' : H) (fds : List (ℕ × Entry))
      → IsGood h fds
      → ((f : ℕ) → host.is_open h f ≡ true → host.is_open h' f ≡ true)
      → Spares P h fds h' fds
  Spares-host P h h' fds g same = record {
    good = record { single = g.single; held = λ fd o. same fd (g.held fd o) };
    spared = λ fd p f. (same fd f.0, f.1);
  }

  -- An entry that owns nothing.
  pub Spares-insert :
      (P : ℕ → Type 0) (h : H) (fds : List (ℕ × Entry)) (vfd : ℕ) (e : Entry)
      → e.is_forked ≡ true
      → IsGood h fds
      → Spares P h fds h (insert_or_assign fds vfd e)
  Spares-insert P h fds vfd e forked g =
      let none_more : (fd : ℕ) → owners (insert_or_assign fds vfd e) fd ≤ owners fds fd =
        λ fd. omega (arith, owners-insert_or_assign fds vfd fd e, owns_forked e fd forked) in
      record {
        good = record {
          single = λ fd. omega (arith, none_more fd, g.single fd);
          held = λ fd o. g.held fd (omega (arith, none_more fd, o));
        };
        spared = λ fd p f. (f.0, omega (arith, none_more fd, f.1));
      }

  -- What holds after every part of a sequence holds after it, returned or thrown.
  pub state_of-bind :
      {A B : Type 0} (P : FileDescriptors H Event → Type 0) (o : Result H Event A)
      (k : A × FileDescriptors H Event → Result H Event B)
      → P (state_of o)
      → ((a : A) (s : FileDescriptors H Event) → P s → P (state_of (k (a, s))))
      → P (state_of (o >>= k))
  state_of-bind P (done a s) k p rest = rest a s p
  state_of-bind P (throws e s) k p rest = p

  -- The same where the rest of the sequence gives something weaker than its first part.
  pub state_of-bind_then :
      {A B : Type 0} (P Q : FileDescriptors H Event → Type 0) (o : Result H Event A)
      (k : A × FileDescriptors H Event → Result H Event B)
      → P (state_of o)
      → ((s : FileDescriptors H Event) → P s → Q s)
      → ((a : A) (s : FileDescriptors H Event) → P s → Q (state_of (k (a, s))))
      → Q (state_of (o >>= k))
  state_of-bind_then P Q (done a s) k p weaker rest = rest a s p
  state_of-bind_then P Q (throws e s) k p weaker rest = weaker s p
