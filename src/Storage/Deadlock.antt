-- ===== src/Storage/Deadlock.antt =====
-- What the calls of several threads do to each other.
use tiny_dbms.Base.{
  Option, Result, ℕ, suc, ◌≡◌, ◌≢◌, refl, ap, ◌∙◌, true, false, List, none, some, ok,
}
use tiny_dbms.Memory.Words.{add_int}
use tiny_dbms.StdMap.{find, string_key}
use tiny_dbms.DataBlock.{DataBlock, serialize, deserialize_from_buffer}
use tiny_dbms.Storage.Pool.{Lock, free, shared, exclusive, BlockSlot, slot_at, sign_key}
use tiny_dbms.Storage.Watcher.{
  LockWatcher, finished, waits_for_map, waits_for_slot, get_sign, load_block, load_present,
  load_block_for_read, load_block_for_write, release_reading_block, release_writing_block,
  lock_exclusive, lock_shared, one_user_more, with_slot,
}

refuses : (l : Lock) → l ≢ free → lock_exclusive l ≡ none
unfolding lock_exclusive
refuses free ne = absurd (ne refl)
refuses (shared n) ne = refl
refuses exclusive ne = refl

present_waits :
    (w : LockWatcher) (i : ℕ) (block : DataBlock) (slot : BlockSlot) (users : Option ℕ → Result ℕ)
    → slot_at w.pool.slots i ≡ ok slot
    → lock_exclusive slot.lock ≡ none
    → load_present lock_exclusive users w i block
      ≡ ok (record w { map_locked = true }, waits_for_slot)
unfolding load_present
present_waits w i block slot users points refused = cc

-- A thread that wants to write a block that another thread holds waits for the block's slot with the
-- mutex of the map locked; from then on the releases of the block wait for that mutex too.
pub load_held-deadlock :
    (w : LockWatcher) (db_name table_name : List ℕ) (offset j i : ℕ)
    (block other stored : DataBlock) (slot own : BlockSlot)
    → w.map_locked ≡ false
    → find (get_sign db_name table_name offset) w.slots_map ≡ some i
    → slot_at w.pool.slots i ≡ ok slot
    → slot.lock ≢ free
    → serialize other ≡ ok stored
    → slot_at w.pool.slots j ≡ ok own
    → (stuck : LockWatcher) × (load_block_for_write w db_name table_name offset block
        ≡ ok (stuck, waits_for_slot))
      × (release_reading_block stuck db_name table_name offset ≡ ok (stuck, waits_for_map))
      × (release_writing_block stuck db_name table_name offset (other, j)
          ≡ ok (with_slot stuck j (record own { memory = stored.memory }), waits_for_map))
unfolding load_block_for_write load_block release_reading_block release_writing_block
load_held-deadlock w db_name table_name offset j i block other stored slot own unlocked present
      points held serialized owned =
    (
      record w { map_locked = true },
      rw (unlocked, present) (present_waits w i block slot _ points (refuses slot.lock held)),
      refl,
      rw (serialized, owned) refl,
    )

shared_present :
    (w : LockWatcher) (i n : ℕ) (block loaded : DataBlock) (slot : BlockSlot)
    (users : Option ℕ → Result ℕ) (amount : ℕ)
    → slot_at w.pool.slots i ≡ ok slot
    → lock_shared slot.lock ≡ some (shared n)
    → users slot.user_amount ≡ ok amount
    → deserialize_from_buffer (record block { memory = slot.memory }) slot.memory ≡ ok loaded
    → load_present lock_shared users w i block
      ≡ ok (
        record (with_slot w i
            (record slot { lock = shared n; in_use = some true; user_amount = some amount })) {
              map_locked = true;
            },
        finished (loaded, i),
      )
unfolding load_present
shared_present w i n block loaded slot users amount points grants counted parsed = cc

-- A thread that reads a block which others are reading, and whose slot counts its users, gets the block
-- and leaves the mutex of the map locked, so that its release waits.
pub load_shared-locks :
    (w : LockWatcher) (db_name table_name : List ℕ) (offset i n amount : ℕ)
    (block loaded : DataBlock) (slot : BlockSlot)
    → w.map_locked ≡ false
    → find (get_sign db_name table_name offset) w.slots_map ≡ some i
    → slot_at w.pool.slots i ≡ ok slot
    → slot.lock ≡ shared n
    → slot.user_amount ≡ some amount
    → deserialize_from_buffer (record block { memory = slot.memory }) slot.memory ≡ ok loaded
    → (after : LockWatcher) × (load_block_for_read w db_name table_name offset block
        ≡ ok (after, finished (loaded, i)))
      × (release_reading_block after db_name table_name offset ≡ ok (after, waits_for_map))
unfolding load_block_for_read load_block release_reading_block lock_shared
load_shared-locks w db_name table_name offset i n amount block loaded slot unlocked present points
      reading counted parsed =
    let grants = ap lock_shared reading ∙ one_more n in
    (
      record (with_slot w i (record slot {
        lock = shared (suc n);
        in_use = some true;
        user_amount = some (add_int amount 1);
      })) { map_locked = true },
      rw (unlocked, present)
          (shared_present w i (suc n) block loaded slot one_user_more (add_int amount 1) points
            grants (ap one_user_more counted) parsed),
      refl,
    )
  where
    one_more : (n : ℕ) → lock_shared (shared n) ≡ some (shared (suc n))
    one_more n = refl
