-- ===== src/Readers/Chain/Tests.antt =====
-- A chain with DussStreamReader, which finds no interface of its own, and UsbRcReader.
use rc_monitor.Base.{zero, suc, ◌≡◌, refl, [], ◌∷◌, none, some, true, false}
use rc_monitor.Jni.Java.{Java, java}
use rc_monitor.Jni.Owned.{unset}
use rc_monitor.Jni.Vm.{Ref}
use rc_monitor.Readers.Usb.{Reader, Device, dir_in, dir_out}
use rc_monitor.Readers.Chain.{Chain, chain_start, chain_stop}
use rc_monitor.Readers.Chain.Active.{
  Reach, here, next, start_call, IsExclusive, IsQuiet, chain-IsExclusive,
}
use rc_monitor.Readers.Chain.Usb.{Attached, usb_readers, runs_one, usb_readers-Documented}

abbrev handset : Device
handset = record {
  vendor = 0x2CA3;
  product = 0x001F;
  interfaces =
      record {
        id = 3;
        endpoints =
            record { bulk = true; direction = dir_in }
            ∷ record { bulk = true; direction = dir_out }
            ∷ [];
      }
      ∷ [];
}

abbrev idle_reader : Reader Java
idle_reader = record {
  running = false;
  initialized = false;
  bridge = unset (record {
    view = record { attached = true; pending = false; globals = 4; copies = 0; received = [] };
    arrays = λ r. [];
  });
  opened = 0;
  claimed = 0;
  threads = 0;
  releasing = 0;
  closing = 0;
  controls = [];
}

abbrev attached : Attached Java
attached = record {
  answers = record {
    devices = some (handset ∷ []);
    has_permission = true;
    opens = true;
    claims = true;
    allocated_ctx = true;
    allocated_parser = true;
  };
  duss = idle_reader;
  usb = idle_reader;
}

abbrev new_chain : Chain (Attached Java)
new_chain = record { active = none; world = attached }

nothing_runs : (x : Ref) → runs_one java 2 x attached ≡ false
unfolding runs_one
nothing_runs zero = refl
nothing_runs (suc zero) = refl
nothing_runs (suc (suc x)) = refl

new_chain-IsExclusive : IsExclusive (usb_readers java 2) new_chain
new_chain-IsExclusive = record { only = λ x runs. let e = nothing_runs x in cc }

abbrev started_chain : Chain (Attached Java)
started_chain = chain_start (usb_readers java 2) (0 ∷ 1 ∷ []) new_chain

started_chain-Reach : Reach (usb_readers java 2) (0 ∷ 1 ∷ []) new_chain started_chain
started_chain-Reach = next here (start_call refl)

chain-IsExclusive_example :
    IsExclusive (usb_readers java 2) started_chain
    × ((chain_stop (usb_readers java 2) started_chain).active ≡ none)
    × IsQuiet (usb_readers java 2) (chain_stop (usb_readers java 2) started_chain).world
chain-IsExclusive_example =
    chain-IsExclusive (usb_readers java 2) (usb_readers-Documented java 2) (0 ∷ 1 ∷ []) new_chain
      started_chain new_chain-IsExclusive started_chain-Reach
