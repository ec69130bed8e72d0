-- ===== src/Heap/Room.antt =====
-- What is left of the room of a heap, kernel/heap.c, once a block has been taken.
use jokerix.Base.{ℕ, suc, arith}
use jokerix.Heap.Block.{Block, whole, two, Taken, HasRoom}

-- Room for a block is room for one of half its size.
pub HasRoom-half : {h k : ℕ} {t : Block} → HasRoom h (suc k) t → HasRoom h k t
HasRoom-half (HasRoom.here le) = HasRoom.here (omega arith)
HasRoom-half (HasRoom.in_left room) = HasRoom.in_left (HasRoom-half room)
HasRoom-half (HasRoom.in_right room) = HasRoom.in_right (HasRoom-half room)

-- Where a block fits, two of half its size do.
pub Taken-HasRoom :
    {h k offset : ℕ} {t t' : Block} → Taken h k offset t t' → HasRoom h (suc k) t → HasRoom h k t'
Taken-HasRoom (Taken.here same start) (HasRoom.here le) = absurd (omega arith)
Taken-HasRoom (Taken.in_left whole taken) (HasRoom.here le) =
    HasRoom.in_right (HasRoom.here (omega arith))
Taken-HasRoom (Taken.in_left two taken) (HasRoom.in_left room) =
    HasRoom.in_left (Taken-HasRoom taken room)
Taken-HasRoom (Taken.in_left two taken) (HasRoom.in_right room) =
    HasRoom.in_right (HasRoom-half room)
Taken-HasRoom (Taken.in_right whole at taken) (HasRoom.here le) =
    HasRoom.in_left (HasRoom.here (omega arith))
Taken-HasRoom (Taken.in_right two at taken) (HasRoom.in_left room) =
    HasRoom.in_left (HasRoom-half room)
Taken-HasRoom (Taken.in_right two at taken) (HasRoom.in_right room) =
    HasRoom.in_right (Taken-HasRoom taken room)
