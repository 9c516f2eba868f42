-- ===== src/Process/ThreadQueue/Tests.antt =====
-- A queue of waiting threads at concrete addresses.
use unstable_os.Base.{false, if◌then◌else◌, none, some, ◌==◌}
use unstable_os.Process.Thread.{Threads, interr_sleep}
use unstable_os.Process.ThreadQueue.{Node, Queue, no_node}

abbrev sleepers : Threads
sleepers i = record { instances = 2; status = interr_sleep; magic_queue_value = 5; freed = false }

abbrev empty_queue : Queue
empty_queue = record { heap = λ b. if b == 0 then some no_node else none; threads = sleepers }

-- The threads 7, 8 and 9 wait, in nodes at 0, 64 and 128.
abbrev first : Node
first = record {
  parent_process = 1;
  thread = 7;
  magic_queue_value = 5;
  prev = some 128;
  next = some 64;
}

abbrev second : Node
second = record {
  parent_process = 1;
  thread = 8;
  magic_queue_value = 5;
  prev = some 0;
  next = some 128;
}

abbrev third : Node
third = record {
  parent_process = 1;
  thread = 9;
  magic_queue_value = 5;
  prev = some 64;
  next = none;
}

abbrev three : Queue
three = record {
  heap = λ b.
      if b == 0
      then some first
      else if b == 64
      then some second
      else if b == 128
      then some third
      else none;
  threads = sleepers;
}
