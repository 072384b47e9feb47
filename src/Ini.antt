-- ===== src/Ini.antt =====
-- ase/inifile.cc: INI files. Scan: the scanning of values and lines. File: IniFile. Writer: IniWriter.
pub mod Scan
pub mod File
pub mod Writer
pub mod Values
pub mod Quoted
pub mod Entries
pub mod Lines
pub mod Cook
pub mod Paths
pub mod RoundTrip
pub mod Tests
