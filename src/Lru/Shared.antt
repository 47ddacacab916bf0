-- ===== src/Lru/Shared.antt =====
-- The shard of src/cache/lru.h with a lock that excludes, called from several threads.
use tiny_db.Prelude.{ℕ, ◌≡◌, refl, sym, ap, ◌∙◌, subst, Option, some, List, [], ◌∷◌, ◌>>=◌, true}
use tiny_db.Order.{KeyOrder}
use tiny_db.Assoc
use tiny_db.Lru.{Lru, insert, erase, get}
use tiny_db.Lru.Refine.{Represents, admit, touch, erase-Represents}
use tiny_db.Lru.Use.{get-Represents}
use tiny_db.Lru.Admit.{insert-Represents}
use tiny_db.Lru.Capacity.{cap_or, Keeps, insert-Keeps, erase-Keeps, get-Keeps}
use tiny_db.Locks.{LockType}
use tiny_db.Locks.Exclusion.{IsExcluding}
use tiny_db.Locks.Serial.{Shared, Runs, run, serial, Runs-IsSerial}

-- A call of a method that takes the lock; `release` faults where a thread holds no node.
pub data Call (K P : Type 0) : Type 0 where
  insert_call : ℕ → ℕ → K → P → Call K P
  erase_call : K → Call K P
  get_call : K → Call K P
  contains_call : K → Call K P

module _ {K P : Type 0} (o : KeyOrder K) where
  abbrev pub made_by : Call K P → Lru K P → Option (Lru K P)
  made_by (Call.insert_call hash now key val) c = insert o hash now key val c
  made_by (Call.erase_call key) c = erase o c key
  made_by (Call.get_call key) c = get o c key >>= λ r. some r.0
  made_by (Call.contains_call key) c = some c

  -- The shard after the call; after a fault there is none.
  abbrev pub effect : Call K P → Option (Lru K P) → Option (Lru K P)
  effect call x = x >>= made_by call

  -- The entries after the call.
  abbrev pub after : ℕ → Call K P → List (K × P) → List (K × P)
  after cap (Call.insert_call hash now key val) m = admit o cap key val m
  after cap (Call.erase_call key) m = Assoc.remove o key m
  after cap (Call.get_call key) m = touch o key m
  after cap (Call.contains_call key) m = m

  -- The entries after all calls, of which the first one stands last.
  abbrev pub after_all : ℕ → List (Call K P) → List (K × P) → List (K × P)
  after_all cap [] m = m
  after_all cap (call ∷ calls) m = after cap call (after_all cap calls m)

  made_by-Keeps : (call : Call K P) (c : Lru K P) → Keeps o c.cap (made_by call c)
  made_by-Keeps (Call.insert_call hash now key val) c = insert-Keeps o c.cap hash now key val c refl
  made_by-Keeps (Call.erase_call key) c = erase-Keeps o c.cap c key refl
  made_by-Keeps (Call.get_call key) c = get-Keeps o c.cap c key refl
  made_by-Keeps (Call.contains_call key) c = refl

  made_by-Represents :
      (call : Call K P) (c : Lru K P) (m : List (K × P))
      → Represents c m
      → (c' : Lru K P) × (made_by call c ≡ some c') × Represents c' (after c.cap call m)
  made_by-Represents (Call.insert_call hash now key val) c m r =
      insert-Represents o hash now key val c m r
  made_by-Represents (Call.erase_call key) c m r = erase-Represents o c m r key
  made_by-Represents (Call.get_call key) c m r =
      let (c', got, ran, value, r') = get-Represents o c m r key in (c', rw ran refl, r')
  made_by-Represents (Call.contains_call key) c m r = (c, refl, r)

  module _ (steps : Call K P → List (Option (Lru K P) → Option (Lru K P)))
      (exact : (call : Call K P) (x : Option (Lru K P)) → run (steps call) x ≡ effect call x)
      (c : Lru K P) (m : List (K × P)) (r : Represents c m) where
    serial-Represents :
        (calls : List (Call K P))
        → (c' : Lru K P) × (serial steps calls (some c) ≡ some c')
          × (c'.cap ≡ c.cap)
          × Represents c' (after_all c.cap calls m)
    serial-Represents [] = (c, refl, refl, r)
    serial-Represents (call ∷ calls) =
        let (c1, ran, kept, r1) = serial-Represents calls in
        let (c2, next, r2) = made_by-Represents call c1 _ r1 in
        (
          c2,
          exact call _ ∙ rw ran next,
          ap (cap_or c1.cap) (sym next) ∙ made_by-Keeps call c1 ∙ kept,
          subst (λ k. Represents c2 (after k call (after_all c.cap calls m))) kept r2,
        )

    -- From a shard that holds entries in the order of their last use, threads call insert, erase,
    -- get and contains under a lock that is taken exactly if it was free and free when it was
    -- released, each call in any small steps that together do what the method does, and the threads
    -- take turns at steps in any order. In every state that is reached with the lock free, no fault
    -- has happened, and the shard holds what the calls make of the entries one after the other, in
    -- the order in which they took the lock.
    pub Runs-after_all :
        {L : Type 0} (l : LockType L) (x : IsExcluding l)
        {s : Shared L (Option (Lru K P)) (Call K P)}
        → Runs l steps (some c) s
        → x.is_free s.lock.state ≡ true
        → (c' : Lru K P) × (s.value ≡ some c') × Represents c' (after_all c.cap s.calls m)
    Runs-after_all {L} l x {s} ran clear =
        let (c', run_all, kept, r') = serial-Represents s.calls in
        (c', (Runs-IsSerial l x steps ran).free clear ∙ run_all, r')
