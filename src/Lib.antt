-- ===== src/Lib.antt =====
-- A model of the invirtio host tool, with theorems on its operations. invirtio gives a host device to a
-- small guest kernel, which drives it and exports it back to the host over VDUSE and the vDPA bus. A
-- supervisor process runs a device's guest; the command line enables devices and shows their state.
--
-- Parts, files and sources (paths from the repository's root):
--   Base, Base/*        helpers: native numbers, lists, and Go's byte strings with what is used of
--                       `strings`, `strconv` and `fmt`; Base/Text/Decimal has the laws of decimals.
--   Utf8, Utf8/*        `utf8.FullRune` and `utf8.DecodeRune` as the tool uses them.
--   Console             tools/cmd/invirtio/console.go. Console/Filter is `escapeFilter`, which keeps a
--                       guest from sending string controls to a user's terminal: its states, `feed`,
--                       `text`, `Write`, and the relay of `cmdConsole`. Console/Server is
--                       `consoleServer`, with the clients' goroutines as events of a step function
--                       whose order is any. Console/Client is the header, the loop over stdin with the
--                       detach key, and `utf8Locale`.
--   Run                 tools/cmd/invirtio/run.go. Run/Logger is `lineLogger`, which puts the guest's
--                       console into the journal. Run/Supervisor is the wait loop of `supervise`, the
--                       attacher, `cleanup` and the end, as events in any order over the host's world.
--                       Run/Launch is `guestArgs`, with the device's paths; Run/Cgroup is `setupCgroup`
--                       and Run/Start the start of `supervise` up to the launcher, each over a record
--                       of the host's operations, with what is documented of them in CgroupLaws and
--                       StartLaws. Run/Cgroup/Service says which process is in its service's cgroup.
--   Harness             tools/internal/harness. Harness/Masks, Harness/Irqs and Harness/Stat are cpu.go:
--                       masks and lists of CPUs, `PlaceIRQs` over the record IrqHost, and the lines of
--                       /proc. Harness/Checks is of harness.go: checks and their report, how a command
--                       ended, `Wait` and the kernel's log; Harness/Guest the output of a command in a
--                       guest's shell, Harness/Counters the guest's counters, and Harness/Bus
--                       `Attach` and `Cleanup`. Harness/Memory is of cgroup.go and Harness/Launch of launch.go.
--   Tester              tools/cmd/invirtio-test/devices.go. Tester/Bind is `cmdBind` and `cmdUnbind`, over
--                       Pci/Bind and Pci/InUse, with what they read as BindReads; Tester/Platform is
--                       `cmdPlatformBind` and `cmdPlatformUnbind` over the record PlatformHost;
--                       Tester/Guests is `cmdIRQAffinity`, `cmdDestroy` and parts of the others.
--   Vdpa                tools/internal/vdpa/vdpa.go, for one device. The host's files, the vdpa command
--                       and the VDUSE ioctl are the record VdpaHost; Vdpa/Laws states, as the record
--                       VdpaLaws, what is documented of them. The supervisor is a client of it.
--                       Vdpa/Eventually has the rounds of `Destroy` as a relation.
--   Plan                tools/cmd/invirtio/plan.go. Plan/Stages is `runStages`, over a world that the
--                       actions change; Plan/Quote is `shellQuote` and `showCmd`, and Plan/Quote/Shell
--                       a POSIX shell's reading of a line, against which they are checked. Plan/Actions
--                       has the actions' constructors, with `copyFile` of install.go and `save` of
--                       config.go; a run that writes a file keeps the worlds that it passes through.
--   Host                the host that the actions change, as the record Host: commands, sysfs, files,
--                       mounts and the ioctl. Host/Files states, as the record FileLaws, what is
--                       documented of the files; Host/Sample is a small host for the tests.
--   Devices             tools/cmd/invirtio/devices.go. Devices/Enable is `cmdEnable` behind its flags,
--                       with what is documented of a started guest as GuestLaws;
--                       Devices/Disable and Devices/Uninstall the stages of `cmdDisable` and of
--                       `cmdUninstall`, and Devices/Udev the rules and the actions that they share.
--   Install             `hostChecks` and the copies of tools/cmd/invirtio/install.go; Install/Stages has
--                       the stages of `cmdInstall`.
--   Report              tools/cmd/invirtio/status.go, memory.go and list.go: `printable`, the reading of
--                       keyed files, `formatSize`, the lines of status and the rows of list, of what was
--                       read of the host.
--   Command             tools/cmd/invirtio/main.go: the dispatch, the exit status and the messages.
--   Pci                 tools/internal/pci/pci.go. Pci/Address has addresses, classes, groups and driver
--                       matching, with `path.Match` a parameter; Pci/Bind moves a device between
--                       drivers over the record PciHost, with the kernel's behaviour in PciLaws; Pci/Queries
--                       is `Type`, `GuestDriver` and `CheckGroup` over what they read; Pci/InUse is
--                       `InUse`.
--   Mconsole            tools/internal/mconsole/mconsole.go: the request and the loop over a guest's
--                       replies, on a little-endian host; what the socket gives is a list of reads.
--                       Mconsole/Space is `bytes.TrimSpace`.
--   Config              tools/cmd/invirtio/config.go. Config/Names, Config/Sizes, Config/Devices and Config/Order; the
--                       JSON library is a parameter of `load_config`.
--
-- Strings and buffers are lists of bytes. An int64 is its 64 bits, with the wrap-around written out. An
-- error is a value; `none` is a nil error.
--
-- Fuel: `feed` of the filter and of the logger call themselves for the bytes that follow a rune in
-- `pending`, which has at most 4 bytes; the fuel of 4 is enough in every state (Console/Filter/Fuel and
-- Run/Logger/Fuel). `Destroy` tries at most 101 times, which is the source's own bound. The decimal form
-- of a number has fuel for more digits than it has. The parents of a process are followed for so many
-- rounds, which are enough beyond the longest line of them (Harness/Launch/Laws).
--
-- The sizes in Report are those of float64, with its rounding to 53 bits written out; the theorem on them
-- is of sizes below 2^53 bytes, where it is exact.
--
-- Not modelled: the parsing of flags, the raw terminal, sockets and processes around these parts, the
-- layout of the list's columns (text/tabwriter), what systemctl is asked for status, and the rest of the
-- hardware tests and benchmarks with their harness (tools/cmd/invirtio-test, tools/internal/harness):
-- scripts of commands and guests, which are checked by running them on the hardware. A mask or a list of
-- CPUs is taken to fit the memory, and its CPUs an int.
pub mod Base
pub mod Command
pub mod Config
pub mod Console
pub mod Devices
pub mod Harness
pub mod Host
pub mod Install
pub mod Mconsole
pub mod Pci
pub mod Plan
pub mod Report
pub mod Run
pub mod Tester
pub mod Utf8
pub mod Vdpa
