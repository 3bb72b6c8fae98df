-- ===== src/DhcpServer/Pid.antt =====
-- The process file of a DHCP server: main.go writes it where `Create` of
-- internal/provider/dhcp_server_resource.go says, and `readDHCPServerPID` reads it.
use terraform_provider_zedam.Prelude.{ℕ, ◌<◌, ◌^◌, Bool, [], none, ◌≡◌, refl}
use terraform_provider_zedam.Prelude.Int.{pos}
use terraform_provider_zedam.Text.{Text, codes}
use terraform_provider_zedam.Text.Laws.{is_empty-append}
use terraform_provider_zedam.Text.Decimal.{format}
use terraform_provider_zedam.Exec.{Host, Fallible, got, join_path}
use terraform_provider_zedam.Attr.{value_string}
use terraform_provider_zedam.IpLink.{ProviderConfig}
use terraform_provider_zedam.Daemon.{write_pid_file, check_file, read_pid}
use terraform_provider_zedam.Daemon.Pid.{parse_int32-format}
use terraform_provider_zedam.DhcpServer.{DhcpServerModel, with_files}

module _ (h : Host) (conf : ProviderConfig) where
  open h use {World, write_file, read_file, is_running}

  -- what the file functions promise: a file that was written with success is read back
  abbrev pub ReadsBack : Type 0
  ReadsBack =
      (path text : Text) (mode : ℕ) (w : World)
      → (write_file path text mode w).0 ≡ none
      → (read_file path (write_file path text mode w).1).0 ≡ got text

  abbrev pub pid_path : Text → Text → DhcpServerModel → Text
  pid_path id d plan = value_string (with_files h conf id d plan).pid_file

  written_pid :
      (d : Text) (pid : ℕ) (alive : Bool) (r : Fallible Text × World) (w' : World)
      → pid < 2 ^ 31
      → r.0 ≡ got (format pid)
      → is_running (pos pid) [] r.1 ≡ (got alive, w')
      → check_file h r ≡ (got (alive, pos pid), w')
  written_pid d pid alive (x, w) w' lt e up = rw e (rw (parse_int32-format pid lt) (rw up refl))

  -- If a file that was written with success is read back, then the daemon that has written its
  -- process identifier, below 2^31, to the file that `Create` plans is the process that the provider
  -- asks for, and it is taken to be alive exactly if that process is found.
  pub read_pid-write_pid_file :
      (id d : Text) (plan : DhcpServerModel) (pid : ℕ) (alive : Bool) (w w' : World)
      → ReadsBack
      → pid < 2 ^ 31
      → (write_pid_file h (pid_path id d plan) pid w).0 ≡ none
      → is_running
          (pos pid)
          []
          (read_file (pid_path id d plan) (write_pid_file h (pid_path id d plan) pid w).1).1
        ≡ (got alive, w')
      → read_pid h d (write_pid_file h (pid_path id d plan) pid w).1 ≡ (got (alive, pos pid), w')
  unfolding with_files write_pid_file read_pid
  read_pid-write_pid_file id d plan pid alive w w' back lt =
      rw (is_empty-append d b'/' (codes "pid")) (λ done up.
        written_pid d pid alive
          (read_file (join_path d (codes "pid"))
            (write_file (join_path d (codes "pid")) (format pid) 0o644 w).1)
          w' lt (back (join_path d (codes "pid")) (format pid) 0o644 w done) up)
