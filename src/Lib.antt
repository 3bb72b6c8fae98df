-- ===== src/Lib.antt =====
-- The zedamigo Terraform provider (terraform-provider-zedamigo): virtual machines for EVE-OS edge
-- nodes, and the network they stand in, on a local or remote target.
--
-- The provider runs commands on its target through an executor (internal/exec), searches their
-- errors for what may be tolerated (internal/errchecker), and keeps for each resource a directory
-- and the link, process or file it stands for (internal/provider). Exec is the interface of the
-- executor as a record of operations on a state of the world, `Host`; every handler is a function
-- of that state that goes on with a value or stops with the diagnostics of the source (Exec/Act;
-- Exec/Exited has the errors of commands that exit with another code than 0), and the helpers
-- that return diagnostics with an error are such functions with both (Exec/Try). Attr is the
-- framework's attribute: null, not known or known.
--
-- ErrChecker and Diag model internal/errchecker/checker.go: the queue of ContainsAny and
-- ContainsNone over any graph of wrapped errors, on fuel, and the search of diagnostics;
-- ErrChecker/Search shows that one round more than the edges of the graph is enough fuel, and
-- ErrChecker/Found what the answer means. GoError has the errors that the provider makes, whose
-- chain gives that fuel.
--
-- Text has strings as lists of bytes with the functions of package strings that the provider
-- calls, Text/Decimal numbers in decimal. Forwards models internal/hypervisor/forwards.go and
-- parseForwards of main_gvproxy.go; Shell models shellQuoteArg and shellJoin of
-- internal/exec/ssh.go and shellSingleQuote of internal/provider/ssh_config.go, and Shell/Lexer
-- the words that a shell reads; LlAddr models internal/lladdr/lladdr.go.
--
-- IpLink models internal/provider/netns_helpers.go and, in IpLink/Parse, the regular expressions
-- on the output of iproute2. Resource has what the networking handlers share, Resource/ReadLink
-- how they read a link back, Resource/Script lists of commands. Bridge and Bridge/Handlers model
-- internal/provider/bridge_resource.go, with theorems in Bridge/Configure, Bridge/Members and
-- Bridge/Delete. Lag, Lag/Handlers and Lag/Update model internal/provider/lag_resource.go;
-- Lag/Members states as a record what iproute2 documents of the members of a bond, `BondLinks`,
-- and Lag/Sync what the change of the members comes to. NetNs models
-- internal/provider/netns_resource.go. Go's package net (CIDRs, MAC addresses) is a parameter,
-- `NetLib`.
--
-- Ssh models how the executor of internal/exec/ssh.go connects through jump hosts and closes its
-- connections, over the packages ssh and sftp as a parameter, `SshLib`; Ssh/Dial and Ssh/Leaks
-- have the theorems on what stays open. SshConfig models the settings of
-- internal/provider/ssh_config.go, with the environment, strconv and net.SplitHostPort as a
-- parameter, `SettingsLib`.
--
-- WaitUntil and WaitUntil/Loop model the wait of internal/provider/wait_until_resource.go:
-- probes, log retention and the loop of waitForScript, over a clock, a probe and a sleep that are
-- parameters, `Runtime`. The loop runs on fuel for its rounds; WaitUntil/Deadline shows how much
-- is enough from the timeout and the interval. WaitUntil/Outcome and WaitUntil/Prune have its
-- other theorems. WaitUntil/Report has the durations, the diagnostic of a failure and the summary
-- file, with package time as a parameter, `TimeLib`; WaitUntil/Handlers the handlers,
-- WaitUntil/Planned what is done before the wait and which parameters it gets,
-- WaitUntil/LastProbe the attempt that ends it, and WaitUntil/Barrier what a created resource
-- says.
--
-- Daemon and Daemon/Handlers model what the resources of background daemons share, by
-- internal/provider/dhcp_server_resource.go: the process file, start and stop, and the
-- reconciliation of a daemon with the state that is asked for, with theorems in Daemon/Pid and
-- Daemon/Read; write_pid_file is the process file of main.go, which DhcpServer/Pid relates to
-- what the provider reads. DhcpServer, Dhcp6Server, Radv and InternetMonitor model
-- internal/provider/dhcp_server_resource.go, dhcp6_server_resource.go, radv_resource.go and
-- internet_monitor_resource.go: the configuration files and all handlers. The calls of package os
-- are fields of `Host`. Text/Quote has the escapes of %q and of JSON strings, at the bytes that
-- stand for themselves or have an escape.
--
-- Tap and Tap/Handlers model internal/provider/tap_resource.go, Tap/Mover how it starts, stops
-- and asks the mover of a TAP, and TapMover that process, main_tap_mover_linux_amd64.go, whose
-- events are a list and whose system calls are a parameter, `Machine`; the list is finite, so the
-- wait needs no fuel. Tap/Pending, TapMover/Waiting and TapMover/Status have the theorems, the
-- last one, by TapMover/Quoted, on both sides of the status file. Vlan models
-- internal/provider/vlan_resource.go.
--
-- Disks models internal/provider/edge_node_disks.go, Disks/Images the disks of PrepareDisks in
-- internal/hypervisor/qemu.go, Disks/Valid what a list of disks that is accepted satisfies.
-- StateBackend models the request handler of misc/tf_state_backend_http/main.go with the clean
-- paths of package filepath, over a store of files that is a parameter, `Files`;
-- StateBackend/Paths and StateBackend/Requests have the theorems.
--
-- Not modelled: the schemas and the hand-over of plan, state and configuration, which belong to
-- the Terraform framework; log messages; the daemons other than the mover of a TAP, the
-- hypervisors except for the disk images, and the clients, which are process and network I/O; and
-- %q's escapes in the message for output that cannot be parsed. Tests has the theorems at
-- concrete hosts, errors and plans.
pub mod Attr
pub mod Bridge
pub mod Daemon
pub mod Dhcp6Server
pub mod DhcpServer
pub mod Diag
pub mod Disks
pub mod ErrChecker
pub mod Exec
pub mod Forwards
pub mod GoError
pub mod InternetMonitor
pub mod IpLink
pub mod Lag
pub mod LlAddr
pub mod NetNs
pub mod Prelude
pub mod Radv
pub mod Resource
pub mod Shell
pub mod Ssh
pub mod SshConfig
pub mod StateBackend
pub mod Tap
pub mod TapMover
pub mod Tests
pub mod Text
pub mod Vlan
pub mod WaitUntil
