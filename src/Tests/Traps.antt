-- ===== src/Tests/Traps.antt =====
-- Interrupts and system calls on the whole state, and two queues on one heap.
use jokerix.UserCall.{put_all}
use jokerix.Hello.{hello_line, hello_main, start}
use jokerix.Hello.Laws.{times}
use jokerix.Hello.Console.{hello-console}
use jokerix.Base.{ℕ, ◌+◌, ◌^◌, ◌≡◌, refl, true, none, [], ◌∷◌, ltb, ◌==◌, if◌then◌else◌, arith}
use jokerix.Base.Run.{ok, Returns, ◌>>=◌}
use jokerix.Heap.{init_tree, BuddyTree}
use jokerix.Heap.Block.{free, HasRoom}
use jokerix.Heap.Init.{init_tree-IsTree}
use jokerix.Heap.Buddy.{IsTree}
use jokerix.Pool.{running, sleeping}
use jokerix.Queue.{Queue, push_back}
use jokerix.Queue.Laws.{IsQueue}
use jokerix.Queue.OnHeap.{push_back-room}
use jokerix.Queue.Apart.{Both, push_back-Both}
use jokerix.Context.{InterruptContext}
use jokerix.Processor.{Processor, idle_retrieve, idle_acquire}
use jokerix.Processor.Laws.{IsBusy, Back}
use jokerix.Trap.Syscall.{
  Setting, heap_height, heap_of, Event, System, returned, reading, sys_read_id, sys_exec_id,
  not_found, resume,
}
use jokerix.Trap.{
  switched, called, user_env_call, supervisor_timer_cause, supervisor_external, handle_interrupt,
}
use jokerix.Trap.Laws.{handle_interrupt-typed, handle_interrupt-over}
use jokerix.Trap.Wake.{read_ends}
use jokerix.Tests.Threads.{thread, two}
use jokerix.Tests.Cpu.{hasty, hasty-IsBusy, bump, store, one_cell, waiting, waiting-IsQueue}
use jokerix.Tests.Programs.{platform}
use jokerix.Tests.Files.{image, names, image-IsNamed}
use jokerix.Trap.Exec.{handle_interrupt-missing}
use jokerix.Fs.{root_inode, inode_at, load32, get_block_addr}
use jokerix.Fs.Names.{first_named}
use jokerix.Fs.Path.{IsName, resolve, step}

abbrev setting : Setting
setting = record {
  platform = platform;
  some_heap = omega arith;
  image = image;
  path_fuel = 16;
  user_addr = λ satp va. va + satp;
}

abbrev tree : BuddyTree
tree = init_tree (2 ^ 17) (record { size = 0; longest = λ i. 0 })

tree-IsTree : IsTree tree 17 free
tree-IsTree = init_tree-IsTree (record { size = 0; longest = λ i. 0 }) 17 (omega arith)

-- Thread 0 runs, and no other is ready.
abbrev alone : Processor
alone = record {
  pool = record {
    threads = λ t. record {
      status = if t == 0 then running else sleeping;
      tid = t;
      occupied = ltb t 4;
      thread = thread t none;
    };
    scheduler = record {
      threads = λ i. record { valid = 0; time = 2; prev = 0; next = 0 };
      max_time = 2;
      current = 1;
    };
  };
  idle = thread 60 none;
  current = record { tid = 0; thread = thread 0 none };
  occupied = true;
}

alone-IsBusy : IsBusy alone 2 []
alone-IsBusy = record {
  is_ready = record { queue = ground arith; slots = tt; times = λ t. ground arith };
  busy = refl;
  apart = ground arith;
  small = omega arith;
  taken = refl;
  runs = refl;
  now = refl;
  time = refl;
  some_left = omega arith;
}

abbrev nothing : Queue
nothing = record { head = 0; tail = 0 }

abbrev system : Processor → System setting
system cpu = record {
  store = record {
    heap = record { tree = tree; bytes = λ a. 0 };
    nodes = λ p. record { item = 0; next = 0 };
  };
  sta = record { node = λ i. 1; first_single = 1; length = 1; start_ppn = 0 };
  cpu = cpu;
  stdin = record { buf = nothing; pushed = record { wait_queue = nothing } };
  console = [];
  timer = 0;
}

nothing-IsQueue : (cpu : Processor) → IsQueue (heap_of setting) (system cpu).store nothing []
nothing-IsQueue cpu = record { valid = (free, tree-IsTree); holds = (refl, refl) }

-- A program that reads to the address 0x10000, and a return at the console.
abbrev program : InterruptContext
program = record {
  x = λ i. if i == 17 then sys_read_id else if i == 11 then 0x10000 else 0;
  sstatus = 0;
  sepc = 0x11000;
}

abbrev event : Event
event = record { time = 5; char = b'\r'; context_addr = 0x3000 }

handle_interrupt-typed_example :
    Returns
      (λ (outcome, context', s').
        (outcome ≡ called (returned 1))
        × (s'.store.heap.bytes 0x18000 ≡ b'\n')
        × (context'.x 10 ≡ 1)
        × (context'.sepc ≡ 0x11004)
        × IsQueue (heap_of setting) s'.store s'.stdin.buf []
        × (s'.cpu ≡ alone))
      (do
        (_, _, s') ← handle_interrupt setting event program supervisor_external (system alone)
        handle_interrupt setting event program user_env_call s')
handle_interrupt-typed_example =
    handle_interrupt-typed setting event event program program (system alone) free
      (nothing-IsQueue alone) (nothing-IsQueue alone) tree-IsTree (HasRoom.here (omega arith))
      (omega arith) refl

handle_interrupt-over_example :
    Returns
      (λ (outcome, context', s').
        (outcome ≡ switched)
        × (context' ≡ program)
        × (s'.timer ≡ 100005)
        × Returns
            (Back (heap_of setting) (system hasty).store.heap 0x3000 hasty 1 two (1 ∷ 2 ∷ 0 ∷ []))
            (idle_retrieve (heap_of setting) s'.cpu s'.store.heap))
      (handle_interrupt setting event program supervisor_timer_cause (system hasty))
handle_interrupt-over_example =
    handle_interrupt-over setting event program (system hasty) two hasty-IsBusy

read_ends_example :
    Returns
      (λ (outcome, acquired, progress, context', s').
        (outcome ≡ called (reading 0x10000))
        × (acquired ≡ true)
        × (progress ≡ returned 1)
        × (s'.store.heap.bytes 0x18000 ≡ b'\n')
        × (context'.x 10 ≡ 1)
        × (context'.sepc ≡ 0x11004)
        × IsQueue (heap_of setting) s'.store s'.stdin.buf []
        × (s'.cpu.current.tid ≡ 0)
        × (s'.cpu.current.thread.context_addr ≡ 0x3000))
      (do
        (outcome, context', s1) ←
            handle_interrupt setting event program user_env_call (system alone)
        (idle, heap) ← idle_retrieve (heap_of setting) s1.cpu s1.store.heap
        (_, _, s2) ←
            handle_interrupt setting event program supervisor_external
              (record s1 { cpu = idle; store = record s1.store { heap = heap } })
        (acquired, next) ← ok (idle_acquire s2.cpu)
        (progress, context'', s3) ←
            resume setting 0x3000 (reading 0x10000) context' (record s2 { cpu = next })
        ok (outcome, acquired, progress, context'', s3))
read_ends_example =
    read_ends setting event event program program (system alone) 2 free alone-IsBusy
      (record { one = nothing-IsQueue alone; other = nothing-IsQueue alone; apart = tt })
      tree-IsTree (HasRoom.here (omega arith)) refl (omega arith)

push_back-room_example :
    Returns
      (λ (q', s'). (n : ℕ) × IsQueue (heap_of setting) s' q' ((n, 7) ∷ []))
      (push_back (heap_of setting) nothing 7 (system alone).store)
push_back-room_example =
    push_back-room 0x80400000 17 (setting.some_heap) heap_height (system alone).store nothing [] 7
      free (nothing-IsQueue alone) tree-IsTree (HasRoom.here (omega arith))

-- A queue of one node beside an empty one.
both : Both bump store waiting one_cell nothing []
both = record {
  one = waiting-IsQueue;
  other = record { valid = tt; holds = (refl, refl) };
  apart = (tt, tt);
}

push_back-Both_example :
    Returns
      (λ (q', s'). Both bump s' q' ((16, 3) ∷ (32, 9) ∷ []) nothing [] × (s'.heap ≡ 32))
      (push_back bump waiting 9 store)
push_back-Both_example = push_back-Both bump store waiting nothing [] one_cell 9 32 32 both refl

-- A program that has "/x" executed.
abbrev typing : System setting
typing = record (system alone) {
  store = record (system alone).store {
    heap = record {
      tree = tree;
      bytes = λ a. if a == 0x18000 then b'/' else if a == 0x18001 then b'x' else 0;
    };
  };
}

abbrev caller : InterruptContext
caller = record program { x = λ i. if i == 17 then sys_exec_id else 0x10000 }

x-IsName : IsName (b'x' ∷ [])
x-IsName = record {
  some_byte = omega arith;
  no_slash = ground arith;
  non_zero = ground arith;
  short = omega arith;
}

x_missing : resolve image names (root_inode image) ((b'x' ∷ []) ∷ []) ≡ none
unfolding resolve step first_named inode_at load32 get_block_addr root_inode
x_missing = refl

handle_interrupt-missing_example :
    Returns
      (λ (outcome, context', s').
        (outcome ≡ called (returned 0))
        × (context'.x 10 ≡ 0)
        × (context'.sepc ≡ 0x11004)
        × (s' ≡ record typing { console = not_found }))
      (handle_interrupt setting event caller user_env_call typing)
handle_interrupt-missing_example =
    handle_interrupt-missing setting event caller typing names ((b'x' ∷ []) ∷ []) refl
      (refl, omega arith, (refl, omega arith, refl)) (omega arith) image-IsNamed (x-IsName, tt)
      (omega arith) x_missing

-- Of a program whose heap stands at 0x20000.
hello-console_example :
    Returns
      (λ (code, s'). (code ≡ 0) × (s' ≡ record (system alone) { console = times 10 hello_line }))
      (do
        (out, code, _) ← start hello_main 0x20000 (record { tree = tree; bytes = λ a. 0xcd })
        (_, s') ← put_all setting event out program (system alone)
        ok (code, s'))
hello-console_example =
    hello-console setting event program (system alone) 0x20000
      (record { tree = tree; bytes = λ a. 0xcd })
